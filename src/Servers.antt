-- ===== src/Servers.antt =====
-- pkg/transport/quic/server.go, ws/ws.go and smuxtcp/smuxtcp.go: what the servers do with one inbound
-- connection or stream. What the TLS handshake, the WebSocket upgrade and smux give is an argument.
pub mod Authenticated
pub mod Agreement
use avangard_private.Common.{
  Bool, List, Bytes, length, if◌then◌else◌, Option, none, some, Result, ok, err, ◌>>=◌, ◌>>◌, guard,
}
use avangard_private.Duplex.{Duplex}
use avangard_private.Auth.Handshake.{
  StaticKey, Noise, HandshakeResult, HandshakeError, server_handshake,
}
use avangard_private.Transport.{TunnelStream, ServerConfig, with_default, server_hello_payload}
use avangard_private.Dialer.{with_default_path}

-- What each of the servers keeps of its configuration.
pub record StreamServer : Type 0 where
  pub noise_static : StaticKey
  pub prologue : Bytes

pub data ServerError : Type 0 where
  no_certificate listen_failed : ServerError

-- The tests and the default of `Listen`. `listens` says whether the listener opens.
abbrev listen_with : ServerConfig → Bool → Result ServerError StreamServer
listen_with cfg listens = do
  guard cfg.has_cert no_certificate
  guard listens listen_failed
  ok (record { noise_static = cfg.noise_static; prologue = with_default cfg.prologue })

-- `Listen` of quic.
unfoldable pub quic_listen : ServerConfig → Bool → Result ServerError StreamServer
quic_listen cfg listens = listen_with cfg listens

-- `Listen` of smux.
unfoldable pub smux_listen : ServerConfig → Bool → Result ServerError StreamServer
smux_listen cfg listens = listen_with cfg listens

-- `ListenTLS` of ws, which also has the path of the upgrade.
unfoldable pub ws_listen_tls :
    ServerConfig → Bytes → Bool → Result ServerError (StreamServer × Bytes)
ws_listen_tls cfg path listens = do s ← listen_with cfg listens; ok (s, with_default_path path)

-- How a handler ends: it closed the connection, or it has passed a stream on to `Accept`.
pub data Handled : Type 0 where
  closed : Handled
  authenticated : TunnelStream → Handled

-- The case of a handler's last `select` that is taken: sending the stream, or `<-s.done`, which only a
-- closed server has ready.
pub data Case : Type 0 where
  sends finds_done : Case

abbrev pub selected : Case → Option TunnelStream → Handled
selected case none = closed
selected sends (some ts) = authenticated ts
selected finds_done (some ts) = closed

-- The end of `handleOuter` and the beginning of a turn of `acceptStreams`. `AcceptStream` gives a stream
-- of the session, which has the hash of the outer handshake.
abbrev pub substream : Bool → Option Duplex → Option TunnelStream → Option TunnelStream
substream session stream none = none
substream session none (some outer) = none
substream session (some stream) (some outer) =
    if session then some (record { channel = outer.channel; conn = stream }) else none

module _ (N : Noise) where
  abbrev pub handshaken :
      Result HandshakeError (HandshakeResult N.Cipher × Duplex) → Option TunnelStream
  handshaken (err e) = none
  handshaken (ok (hr, conn)) = some (record { channel = hr.hash; conn = conn })

  abbrev pub shake : StreamServer → Duplex → Option TunnelStream
  shake s stream =
      handshaken (server_handshake N s.noise_static s.prologue server_hello_payload stream)

  -- `handleStream` of quic.
  unfoldable pub handle_stream : StreamServer → Duplex → Case → Handled
  handle_stream s stream case = selected case (shake s stream)

  -- `handleWS`: the upgrade gives a connection of messages, or fails.
  unfoldable pub handle_ws : StreamServer → Option Duplex → Case → Handled
  handle_ws s none case = closed
  handle_ws s (some stream) case = selected case (shake s stream)

  -- `handleOuter` and one turn of `acceptStreams`: the TLS handshake, the Noise handshake, whether the
  -- smux session starts, and the stream that it accepts.
  unfoldable pub handle_outer : StreamServer → Option Duplex → Bool → Option Duplex → Case → Handled
  handle_outer s none session stream case = closed
  handle_outer s (some tls_conn) session stream case =
      selected case (substream session stream (shake s tls_conn))
