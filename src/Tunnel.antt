-- ===== src/Tunnel.antt =====
-- pkg/tunnel: the client that opens a tunnel (client.go) and the server that accepts one (server.go).
pub mod Client
pub mod Server
pub mod Composite
pub mod Opens
pub mod EndToEnd
