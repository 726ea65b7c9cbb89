-- ===== src/Auth.antt =====
-- pkg/auth: the tunnel token (token.go), the framing of handshake messages and the two sides of the
-- Noise NK handshake (noise.go).
pub mod Token
pub mod Frames
pub mod Handshake
pub mod Keys
