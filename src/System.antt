-- ===== src/System.antt =====
-- The client and the server together: cmd/avangard-client/main.go, pkg/transport/tcp, pkg/auth,
-- pkg/tunnel and pkg/protocol, from an application's SOCKS5 request to the server's connection.
use mathlib.Core.List.{append_assoc}
use avangard_private.Common.{
  ℕ, suc, ◌≡◌, ◌∙◌, ◌≤◌, ◌<◌, ◌^◌, refl, sym, ap, Bool, true, false, [], ◌∷◌, ◌++◌, List, Bytes,
  Any, length, Option, none, some, Result, ok, err,
}
use avangard_private.Duplex.{Duplex}
use avangard_private.Net.{join_host_port, decimal}
use avangard_private.Net.HostPort.{IsClean}
use avangard_private.Auth.Frames.{frame}
use avangard_private.Auth.Handshake.{Noise, HandshakeResult, client_handshake}
use avangard_private.Auth.Handshake.Agreement.{
  Completes, opened, shaken, client_result, same_channel, server_result, client_handshake_lem,
  server_handshake_lem,
}
use avangard_private.Transport.{
  TunnelStream, ClientConfig, client_hello_payload, server_hello_payload,
}
use avangard_private.Dialer.{Network, DialerError, alpn, tls_config, tcp_dial}
use avangard_private.Dialer.Profile.{dial_tls_mimics}
use avangard_private.Sni.Hello.{Hello, IsHello, record_bytes}
use avangard_private.TcpServer.{Server, offered, handle_conn}
use avangard_private.TcpServer.Served.{handle_conn-record_bytes}
use avangard_private.Tunnel.Client.{dial_tunnel}
use avangard_private.Tunnel.Server.{arrives, dials, relays, closes_upstream, closes, handle}
use avangard_private.Tunnel.EndToEnd.{tunnel_dials_name}
use avangard_private.Socks
use avangard_private.Socks.{handle_socks}
use avangard_private.Socks.Connect.{greeting, connect_name, handle_socks_connect}

-- A network that reaches the server, and a server, with a TLS connection that carries this stream.
abbrev pub reaching : Network → Duplex → Network
reaching net stream = record net { tcp = λ addr. true; tls = λ hello conf. some stream }

abbrev pub terminating : Server → Duplex → Server
terminating s stream = record s { tls_handshake = λ bytes. some stream }

abbrev stream_of : Result DialerError TunnelStream → Option TunnelStream
stream_of (ok ts) = some ts
stream_of (err e) = none

abbrev is_ok {ℓ κ} : {E : Type ℓ} {A : Type κ} → Result E A → Bool
is_ok (ok a) = true
is_ok (err e) = false

module _ (N : Noise) where
  -- The stream that the TCP client's `Dial` gives.
  abbrev pub dialed : Network → ClientConfig → Option TunnelStream
  dialed net c = stream_of (tcp_dial N net c).1

  dialed_lem :
      (net : Network) (c : ClientConfig) (stream conn : Duplex) (r : HandshakeResult N.Cipher)
      → client_handshake N c.server_static_pub c.prologue client_hello_payload stream ≡ ok (r, conn)
      → dialed (reaching net stream) c ≡ some (record { channel = r.hash; conn = conn })
  unfolding tcp_dial
  dialed_lem net c stream conn r e =
      rw (dial_tls_mimics (reaching net stream) (tls_config (alpn ∷ []) c) c.fingerprint)
        (rw e refl)

  module _ (parse_ip : Bytes → Option Bytes) (hmac : Bytes → Bytes → Bytes)
      (ip_string : Bytes → Bytes) where
    -- Whether the client's dialer and `DialTunnel` open a tunnel to a destination.
    abbrev pub opens_tunnel : Network → ClientConfig → Bytes → Bool
    opens_tunnel net c dest = is_ok (dial_tunnel parse_ip hmac c.uuid (dialed net c) dest)

    opens_tunnel_lem :
        (net : Network) (c : ClientConfig) (dest : Bytes) (ts ts' : TunnelStream)
        → dialed net c ≡ some ts
        → dial_tunnel parse_ip hmac c.uuid (some ts) dest ≡ ok ts'
        → opens_tunnel net c dest ≡ true
    opens_tunnel_lem net c dest ts ts' d e = rw d (rw e refl)

    module _ (accepted : List Bytes) (dial : Bytes → Bool) where
      -- From an application's SOCKS5 request to the server's connection: the client opens a tunnel and
      -- answers the application with success, the server takes the connection in, sends the bytes that the
      -- client's handshake was fed, and ends with the same channel binding; it dials that very name and
      -- port, and relays `payload`.
      abbrev pub Reaches :
          Server
          → ClientConfig
          → Network
          → Hello
          → Bytes
          → Bytes
          → Bytes
          → Bytes
          → Bytes
          → ℕ
          → ℕ
          → ℕ
          → Type 0
      Reaches s c net h rest_c rest methods host payload m n port =
          let dest = join_host_port host (decimal port) in
          (from_s : Bytes) × (ts ts' ts_s : TunnelStream) × (dialed
              (reaching net (opened N (suc n) (from_s ++ rest_c))) c
            ≡ some ts)
          × (dial_tunnel parse_ip hmac c.uuid (some ts) dest ≡ ok ts')
          × (handle_socks ip_string
                (opens_tunnel (reaching net (opened N (suc n) (from_s ++ rest_c))) c) true
                (greeting methods ++ connect_name host port payload)
              ≡ Socks.writes (5 ∷ 0 ∷ [])
                ∷ Socks.dials dest
                ∷ Socks.writes (Socks.reply 0)
                ∷ Socks.relays payload
                ∷ [])
          × (handle_conn N (terminating s (opened N m (ts'.conn.sent ++ payload)))
                (record_bytes h ++ rest)
              ≡ offered ts_s)
          × (ts_s.conn.sent ≡ from_s)
          × (ts_s.channel ≡ ts.channel)
          × (handle hmac ip_string accepted ts_s.channel dial (arrives ts_s.conn.incoming)
              ≡ dials dest ∷ relays payload ∷ closes_upstream ∷ closes ∷ [])

      -- An application asks the client's SOCKS5 server for a name and a port, and sends `payload`. The
      -- configurations agree: the server's public key, the prologue, an accepted identity, a magic
      -- name. The Noise library and HMAC do what they document, and the network carries what each side
      -- sends: the server's TLS connection gives it all that the client wrote, and `payload` behind it. Then
      -- the client opens a tunnel and answers the application with success, the server takes the
      -- connection in, sends the bytes that the client's handshake was fed, and ends with the same
      -- channel binding; it dials that very name and port, and relays `payload`.
      pub socks_to_destination :
          (s : Server) (c : ClientConfig) (net : Network) (h : Hello)
          (rest_c rest methods host payload : Bytes) (m n port : ℕ)
          → Completes N s.noise_static s.prologue client_hello_payload server_hello_payload
          → ((key message : Bytes) → length (hmac key message) ≡ 32)
          → c.server_static_pub ≡ s.noise_static.public
          → c.prologue ≡ s.prologue
          → Any (λ u. u ≡ c.uuid) accepted
          → IsHello h
          → Any (λ x. x ≡ h.name) s.magic_snis
          → parse_ip host ≡ none
          → IsClean host
          → 0 < length host
          → length host ≤ 255
          → port < 2 ^ 16
          → dial (join_host_port host (decimal port)) ≡ true
          → Reaches s c net h rest_c rest methods host payload m n port
      socks_to_destination s c net h rest_c rest methods host payload m n port k hm key pro a w
            magic ip clean l u lt up =
          let dest = join_host_port host (decimal port) in
          let from_s = frame k.msg2.body in
          let from_c = frame k.msg1.body in
          let ts : TunnelStream = record {
            channel = (client_result N k).hash;
            conn = shaken N (suc n) rest_c from_c;
          } in
          let net' = reaching net (opened N (suc n) (from_s ++ rest_c)) in
          let shake = client_handshake_lem N k (suc n) rest_c in
          let dialed_ok : dialed net' c ≡ some ts =
            dialed_lem net c (opened N (suc n) (from_s ++ rest_c)) ts.conn (client_result N k)
              (rw (key, pro) shake) in
          let (ts', written, e, sent, served) =
            tunnel_dials_name parse_ip hmac ip_string accepted dial c.uuid host payload port n ts
              (hm c.uuid ts.channel) a refl ip clean l u lt up in
          let ts_s : TunnelStream = record {
            channel = (server_result N k).hash;
            conn = shaken N m (written ++ payload) from_s;
          } in
          let binding : ts_s.channel ≡ ts.channel = sym (same_channel N k) in
          (
            from_s,
            ts,
            ts',
            ts_s,
            dialed_ok,
            e,
            handle_socks_connect ip_string (opens_tunnel net' c) methods host payload port lt
                ∙ rw (opens_tunnel_lem net' c dest ts ts' dialed_ok e) refl,
            handle_conn-record_bytes N (terminating s (opened N m (ts'.conn.sent ++ payload))) h
                rest (opened N m (ts'.conn.sent ++ payload)) ts_s.conn (server_result N k) w magic
                refl
                (rw (sent, append_assoc from_c written payload)
                  (server_handshake_lem N k m (written ++ payload))),
            refl,
            binding,
            ap (λ x. handle hmac ip_string accepted x dial (arrives (written ++ payload))) binding
                ∙ served,
          )
