-- ===== src/TcpServer.antt =====
-- pkg/transport/tcp/server.go: what becomes of one inbound connection, and the connection that gives
-- the peeked bytes again. Parameters: the Noise library; and for a server, what the TLS handshake makes
-- of the bytes that the peer sends, and whether the decoy can be reached.
pub mod Routes
pub mod Served
pub mod Replayed
use Prim.Native.Nat.{min}
use avangard_private.Common.{
  ℕ, Bool, true, false, not, ◌&&◌, ◌||◌, List, [], ◌∷◌, ◌++◌, Bytes, length, take, drop, equal, ltb,
  ◌==◌, if◌then◌else◌, Option, none, some, Result, ok, err, ◌>>=◌, ◌>>◌, guard,
}
use avangard_private.Duplex.{Duplex}
use avangard_private.Auth.Handshake.{
  StaticKey, Noise, HandshakeResult, HandshakeError, server_handshake,
}
use avangard_private.Transport.{TunnelStream, ServerConfig, with_default, server_hello_payload}
use avangard_private.Sni.{Failure, Peek, peek_client_hello_sni}

-- `slices.Contains`
unfoldable pub member : List Bytes → Bytes → Bool
member [] s = false
member (x ∷ xs) s = equal x s || member xs s

-- `decoy_reachable` and `tls_handshake` (the stream inside, if the handshake succeeds) are what the
-- network gives.
pub record Server : Type 0 where
  pub magic_snis : List Bytes
  pub decoy_addr : Bytes
  pub noise_static : StaticKey
  pub prologue : Bytes
  pub decoy_reachable : Bool
  pub tls_handshake : Bytes → Option Duplex

pub data ListenError : Type 0 where
  no_certificate listen_failed : ListenError

-- `Listen`: what the server keeps of its configuration. `listens` says whether net.Listen succeeds.
unfoldable pub listen :
    ServerConfig → List Bytes → Bool → Bool → (Bytes → Option Duplex) → Result ListenError Server
listen cfg magic_snis listens decoy_reachable tls_handshake = do
  guard cfg.has_cert no_certificate
  guard listens listen_failed
  ok (record {
    magic_snis = magic_snis;
    decoy_addr = cfg.decoy_addr;
    noise_static = cfg.noise_static;
    prologue = with_default cfg.prologue;
    decoy_reachable = decoy_reachable;
    tls_handshake = tls_handshake;
  })

-- Dropped silently; closed for want of a decoy; the bytes proxied to the decoy; a handshake failed;
-- offered to `Accept`.
pub data Route : Type 0 where
  dropped no_decoy decoy_unreachable tls_failed noise_failed : Route
  decoy : Bytes → Route
  offered : TunnelStream → Route

unfoldable pub is_magic_sni : Server → Bytes → Bool
is_magic_sni s sni = length s.magic_snis == 0 || member s.magic_snis sni

unfoldable pub forward_decoy : Server → Bytes → Route
forward_decoy s bytes =
    if length s.decoy_addr == 0
    then no_decoy
    else if s.decoy_reachable
    then decoy bytes
    else decoy_unreachable

abbrev has_error : Option Failure → Bool
has_error none = false
has_error (some e) = true

module _ (N : Noise) where
  abbrev noise_outcome : Result HandshakeError (HandshakeResult N.Cipher × Duplex) → Route
  noise_outcome (err e) = noise_failed
  noise_outcome (ok (hr, conn)) = offered (record { channel = hr.hash; conn = conn })

  abbrev tls_outcome : Server → Option Duplex → Route
  tls_outcome s none = tls_failed
  tls_outcome s (some tls_conn) =
      noise_outcome (server_handshake N s.noise_static s.prologue server_hello_payload tls_conn)

  unfoldable pub terminate : Server → Bytes → Route
  terminate s bytes = tls_outcome s (s.tls_handshake bytes)

  -- The peeked bytes come first in all later reads.
  unfoldable pub handle_conn : Server → Bytes → Route
  handle_conn s stream =
      let p = peek_client_hello_sni stream in
      let replayed = p.raw ++ p.unread in
      if has_error p.error && length p.raw == 0
      then dropped
      else if not (is_magic_sni s p.sni)
      then forward_decoy s replayed
      else terminate s replayed

-- `peekConn`, over a connection whose reads may give fewer bytes than asked for.
pub record PeekConn : Type 0 where
  pub replay : Bytes
  pub conn : Bytes

-- `Read` with a buffer of n bytes, where the connection has at most `ready` at hand.
unfoldable pub peek_read : ℕ → ℕ → PeekConn → Bytes × PeekConn
peek_read n ready p =
    if ltb 0 (length p.replay)
    then (
      take (min n (length p.replay)) p.replay,
      record p { replay = drop (min n (length p.replay)) p.replay },
    )
    else (take (min n ready) p.conn, record p { conn = drop (min n ready) p.conn })
