-- ===== src/Tests/Systems.antt =====
-- The client and the server together, from a SOCKS5 request for ab:80 on.
use avangard_private.Common.{
  ℕ, ◌≡◌, inl, refl, true, false, [], ◌∷◌, ◌++◌, Bytes, length, replicate, length-take,
  length-append, length-replicate, some, ok, codes, arith,
}
use avangard_private.Duplex.{Duplex}
use avangard_private.Net.{join_host_port, decimal}
use avangard_private.Auth.Handshake.Agreement.{Completes, opened}
use avangard_private.Transport.{
  TunnelStream, ClientConfig, client_hello_payload, server_hello_payload,
}
use avangard_private.Dialer.{
  Network, raw, tls_conn, ws_conn, quic_send, quic_receive, smux_session, tcp_dial, ws_dial,
  quic_dial, dial_outer,
}
use avangard_private.Dialer.Closing.{Settled, Settles, left_by_quic, dials_settle}
use avangard_private.Sni.Hello.{record_bytes}
use avangard_private.TcpServer.{offered, handle_conn}
use avangard_private.Tunnel.Client.{dial_tunnel}
use avangard_private.Tunnel.Server.{arrives, dials, relays, closes_upstream, closes, handle}
use avangard_private.Socks
use avangard_private.Socks.{handle_socks}
use avangard_private.Socks.Connect.{greeting, connect_name}
use avangard_private.System.{reaching, terminating, dialed, opens_tunnel, socks_to_destination}
use avangard_private.Tests.Toys.{turn, last_turn, static_key, toy_noise}
use avangard_private.Tests.Hellos.{server, browser, browser-IsHello}
use avangard_private.Tests.Tunnels.{toy_hmac, no_ip, as_is, reachable, uuid, ab-IsClean}

-- The library does not look at the prologue.
abbrev pub toy_completes :
    (prologue : Bytes)
    → Completes toy_noise static_key prologue client_hello_payload server_hello_payload
toy_completes prologue = record {
  client = 0;
  server = 2;
  msg1 = turn 1 (1 ∷ client_hello_payload);
  got1 = turn 3 client_hello_payload;
  msg2 = last_turn (2 ∷ server_hello_payload);
  got2 = last_turn server_hello_payload;
  c = 5;
  d = 6;
  pub_length = refl;
  client_init = refl;
  server_init = refl;
  write1 = refl;
  read1 = refl;
  hello_read = refl;
  write2 = refl;
  read2 = refl;
  reply_read = refl;
  size1 = (omega arith, omega arith);
  size2 = (omega arith, omega arith);
  server_split = (refl, refl);
  client_split = (refl, refl);
  same_binding = refl;
}

pub length-toy_hmac : (k m : Bytes) → length (toy_hmac k m) ≡ 32
length-toy_hmac k m = length-take 32 (k ++ (m ++ replicate 32 0)) (
    omega (
      arith,
      length-append k (m ++ replicate 32 0),
      length-append m (replicate 32 0),
      length-replicate {A = ℕ} 32 0,
    ))

abbrev pub client : ClientConfig
client = record {
  addr = codes "s:443";
  uuid = uuid;
  sni = codes "ya.ru";
  server_static_pub = static_key.public;
  insecure_skip_verify = false;
  prologue = codes "p";
  fingerprint = codes "yandex";
}

abbrev line : Bytes → Duplex
line s = record { incoming = s; sent = []; writes_left = 2 }

abbrev pub network : Network
network = record {
  tcp = λ addr. true;
  tls = λ hello conf. some (line (codes "tls"));
  quic = λ addr conf. true;
  open_stream = some (line (codes "quic"));
  upgrade = λ host path stream. some stream;
  smux = λ stream. true;
}

socks_to_destination_example :
    (from_s : Bytes) × (ts ts' ts_s : TunnelStream) × (dialed toy_noise
        (reaching network (opened toy_noise 1 (from_s ++ codes "r")))
        client
      ≡ some ts)
    × (dial_tunnel no_ip toy_hmac uuid (some ts) (join_host_port (codes "ab") (decimal 80))
        ≡ ok ts')
    × (handle_socks as_is
          (opens_tunnel toy_noise no_ip toy_hmac as_is
            (reaching network (opened toy_noise 1 (from_s ++ codes "r")))
            client)
          true
          (greeting (0 ∷ []) ++ connect_name (codes "ab") 80 (codes "GET"))
        ≡ Socks.writes (5 ∷ 0 ∷ [])
          ∷ Socks.dials (join_host_port (codes "ab") (decimal 80))
          ∷ Socks.writes (Socks.reply 0)
          ∷ Socks.relays (codes "GET")
          ∷ [])
    × (handle_conn toy_noise
          (terminating server (opened toy_noise 0 (ts'.conn.sent ++ codes "GET")))
          (record_bytes browser ++ codes "x")
        ≡ offered ts_s)
    × (ts_s.conn.sent ≡ from_s)
    × (ts_s.channel ≡ ts.channel)
    × (handle toy_hmac as_is (uuid ∷ []) ts_s.channel reachable (arrives ts_s.conn.incoming)
        ≡ dials (join_host_port (codes "ab") (decimal 80))
          ∷ relays (codes "GET")
          ∷ closes_upstream
          ∷ closes
          ∷ [])
socks_to_destination_example =
    socks_to_destination toy_noise no_ip toy_hmac as_is (uuid ∷ []) reachable server client network
      browser (codes "r") (codes "x") (0 ∷ []) (codes "ab") (codes "GET") 0 0 80
      (toy_completes (codes "p")) length-toy_hmac refl refl (inl refl) browser-IsHello (inl refl)
      refl ab-IsClean (omega arith) (omega arith) (omega arith) refl

dials_settle_example :
    Settled [] (tls_conn ∷ raw ∷ []) (tcp_dial toy_noise network client)
    × Settled [] (ws_conn ∷ tls_conn ∷ raw ∷ []) (ws_dial toy_noise network (codes "/ws") client)
    × Settled [] (smux_session ∷ tls_conn ∷ raw ∷ []) (dial_outer toy_noise network client)
    × Settles [] (quic_receive ∷ quic_send ∷ []) left_by_quic (quic_dial toy_noise network client)
dials_settle_example = dials_settle toy_noise network (codes "/ws") client
