-- ===== src/Dialer.antt =====
-- pkg/transport/tcp/client.go, quic/client.go, ws/ws.go and smuxtcp/smuxtcp.go: how the clients dial. What
-- the network and the libraries do is a record that the calls take: net.Dialer, crypto/tls, uTLS,
-- quic-go, gorilla/websocket and smux.
pub mod Closing
pub mod Profile
use avangard_private.Common.{
  Bool, not, List, [], ◌∷◌, ◌++◌, Bytes, length, ◌==◌, if◌then◌else◌, Option, none, some, Result,
  ok, err, ◌>>=◌, ◌>>◌, guard, codes,
}
use avangard_private.Duplex.{Duplex}
use avangard_private.Auth.Handshake.{Noise, HandshakeResult, HandshakeError, client_handshake}
use avangard_private.Transport.{TunnelStream, ClientConfig, with_default, client_hello_payload}
use avangard_private.Utlsx.{ClientHelloId, FingerprintError, resolve, fingerprint_from_string}

-- `tls.Config` with the fields that differ; TLS 1.3 is the least version everywhere.
pub record TlsConfig : Type 0 where
  pub server_name : Bytes
  pub next_protos : List Bytes
  pub insecure_skip_verify : Bool

-- Whose ClientHello is sent: that of crypto/tls, or a browser's.
pub data Mimicry : Type 0 where
  go_hello : Mimicry
  browser_hello : ClientHelloId → Mimicry

-- `tls` and `quic` give the stream inside, `upgrade` that of the WebSocket messages for a host and a path,
-- and `smux` says whether a session starts.
pub record Network : Type 0 where
  pub tcp : Bytes → Bool
  pub tls : Mimicry → TlsConfig → Option Duplex
  pub quic : Bytes → TlsConfig → Bool
  pub open_stream : Option Duplex
  pub upgrade : Bytes → Bytes → Duplex → Option Duplex
  pub smux : Duplex → Bool

pub data DialerError : Type 0 where
  addr_required bad_static_pub tcp_failed tls_failed quic_failed open_failed upgrade_failed
        smux_failed :
      DialerError
  unknown_browser : FingerprintError → DialerError
  noise_failed : HandshakeError → DialerError

-- A connection, and those over it: closing one closes what it runs over. The `Close` of quic-go's stream
-- closes the direction in which it sends, and not the one in which it receives.
pub data Layer : Type 0 where
  raw tls_conn ws_conn quic_send quic_receive smux_session : Layer

pub data DialAction : Type 0 where
  opens closes : Layer → DialAction

-- What was opened and closed, in order, and the outcome.
abbrev pub Dialing : Type 0 → Type 0
Dialing A = List DialAction × Result DialerError A

-- A step that opens a connection. If it fails, what `cleanup` names is closed.
abbrev pub acquire :
    {A B : Type 0} → Layer → List DialAction → Result DialerError A → (A → Dialing B) → Dialing B
acquire l cleanup (err e) k = (cleanup, err e)
acquire l cleanup (ok a) k = let (actions, r) = k a in (opens l ∷ actions, r)

-- A connection that is opened together with the one before it.
abbrev pub also : {A : Type 0} → Layer → Dialing A → Dialing A
also l (actions, r) = (opens l ∷ actions, r)

abbrev pub required : {A : Type 0} → Option A → DialerError → Result DialerError A
required none e = err e
required (some a) e = ok a

abbrev pub checked : Bool → DialerError → Result {0, 0} DialerError Unit
checked b e = if b then ok tt else err e

abbrev pub alpn : Bytes
alpn = codes "avangard/1"

abbrev pub http_1_1 : Bytes
http_1_1 = codes "http/1.1"

-- The checks of every `NewClient`, and the prologue that is kept.
unfoldable pub new_client_config : ClientConfig → Result DialerError ClientConfig
new_client_config cfg = do
  guard (not (length cfg.addr == 0)) addr_required
  guard (length cfg.server_static_pub == 32) bad_static_pub
  ok (record cfg { prologue = with_default cfg.prologue })

abbrev pub tls_config : List Bytes → ClientConfig → TlsConfig
tls_config protos cfg = record {
  server_name = cfg.sni;
  next_protos = protos;
  insecure_skip_verify = cfg.insecure_skip_verify;
}

-- `utlsx.New`, for a configuration that is not nil, and the handshake.
abbrev browser_tls :
    Network → TlsConfig → Result FingerprintError ClientHelloId → Result DialerError Duplex
browser_tls net conf (err e) = err (unknown_browser e)
browser_tls net conf (ok id) = required (net.tls (browser_hello id) conf) tls_failed

-- `dialTLS`, of which each package has a copy.
unfoldable pub dial_tls : Network → TlsConfig → Bytes → Result DialerError Duplex
dial_tls net conf fp =
    if length fp == 0
    then required (net.tls go_hello conf) tls_failed
    else browser_tls net conf (resolve (fingerprint_from_string fp))

module _ (N : Noise) where
  -- The Noise handshake at the end of a dial, over the connection that is closed if it fails.
  abbrev authenticated :
      Layer → Result HandshakeError (HandshakeResult N.Cipher × Duplex) → Dialing TunnelStream
  authenticated l (err e) = (closes l ∷ [], err (noise_failed e))
  authenticated l (ok (hr, conn)) = ([], ok (record { channel = hr.hash; conn = conn }))

  abbrev shake : Layer → ClientConfig → Duplex → Dialing TunnelStream
  shake l cfg conn =
      authenticated l
        (client_handshake N cfg.server_static_pub cfg.prologue client_hello_payload conn)

  -- `Dial` of tcp.
  unfoldable pub tcp_dial : Network → ClientConfig → Dialing TunnelStream
  tcp_dial net cfg = acquire raw [] (checked (net.tcp cfg.addr) tcp_failed) λ u.
      acquire tls_conn (closes raw ∷ []) (dial_tls net (tls_config (alpn ∷ []) cfg) cfg.fingerprint)
        λ conn. shake tls_conn cfg conn

  -- `Dial` of ws, for the path of the upgrade.
  unfoldable pub ws_dial : Network → Bytes → ClientConfig → Dialing TunnelStream
  ws_dial net path cfg =
      let host = if length cfg.sni == 0 then cfg.addr else cfg.sni in
      acquire raw [] (checked (net.tcp cfg.addr) tcp_failed) λ u.
        acquire tls_conn (closes raw ∷ [])
          (dial_tls net (tls_config (http_1_1 ∷ []) cfg) cfg.fingerprint)
          λ conn.
            acquire ws_conn (closes tls_conn ∷ [])
              (required (net.upgrade host path conn) upgrade_failed)
              λ messages. shake ws_conn cfg messages

  -- `Dial` of quic: one stream over the connection that `NewClient` made.
  unfoldable pub quic_dial : Network → ClientConfig → Dialing TunnelStream
  quic_dial net cfg =
      acquire quic_send [] (required net.open_stream open_failed)
        λ stream. also quic_receive (shake quic_send cfg stream)

  -- The end of `dialOuter` of smux: the session is over the connection that was authenticated.
  abbrev start_session : Network → TunnelStream → Dialing TunnelStream
  start_session net ts =
      acquire smux_session (closes tls_conn ∷ []) (checked (net.smux ts.conn) smux_failed)
        λ u. ([], ok ts)

  abbrev after_noise : Network → Dialing TunnelStream → Dialing TunnelStream
  after_noise net (actions, err e) = (actions, err e)
  after_noise net (actions, ok ts) = let (more, r) = start_session net ts in (actions ++ more, r)

  -- `dialOuter` of smux.
  unfoldable pub dial_outer : Network → ClientConfig → Dialing TunnelStream
  dial_outer net cfg = acquire raw [] (checked (net.tcp cfg.addr) tcp_failed) λ u.
      acquire tls_conn (closes raw ∷ []) (dial_tls net (tls_config (alpn ∷ []) cfg) cfg.fingerprint)
        λ conn. after_noise net (shake tls_conn cfg conn)

-- `NewClient` of quic, which connects at once.
unfoldable pub new_quic_client : Network → ClientConfig → Result DialerError ClientConfig
new_quic_client net cfg = do
  c ← new_client_config cfg
  guard (net.quic c.addr (tls_config (alpn ∷ []) c)) quic_failed
  ok c

-- `DefaultPath`, for an empty path.
unfoldable pub with_default_path : Bytes → Bytes
with_default_path path = if length path == 0 then codes "/ws" else path

-- `NewClient` of ws.
unfoldable pub new_ws_client : ClientConfig → Bytes → Result DialerError (ClientConfig × Bytes)
new_ws_client cfg path = do c ← new_client_config cfg; ok (c, with_default_path path)
