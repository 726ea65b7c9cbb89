-- ===== src/Servers/Authenticated.antt =====
-- pkg/transport: which streams the quic, ws and smux servers pass on.
use avangard_private.Common.{◌≡◌, Bytes, ok}
use avangard_private.Duplex.{Duplex}
use avangard_private.Auth.Handshake.{Noise, HandshakeResult, server_handshake}
use avangard_private.Transport.{server_hello_payload}
use avangard_private.Servers.{StreamServer}

module _ (N : Noise) where
  -- The Noise handshake over the connection succeeds, with this hash, and leaves it like this.
  pub record Shaken (s : StreamServer) (conn : Duplex) (hash : Bytes) (left : Duplex) : Type 0 where
    pub result : HandshakeResult N.Cipher
    pub noise :
        server_handshake N s.noise_static s.prologue server_hello_payload conn ≡ ok (result, left)
    pub binding : hash ≡ result.hash
