-- ===== src/Tests.antt =====
-- Runs of the models on concrete inputs, and the theorems at such inputs.
mod Toys
mod Systems
mod Servers
mod Links
mod Headers
mod Tunnels
mod Handshakes
mod Replays
mod Hellos
mod Choices
mod Blocks
mod Composites
mod Streams
