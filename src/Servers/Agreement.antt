-- ===== src/Servers/Agreement.antt =====
-- pkg/transport: the clients of quic, ws and smux against their servers.
use avangard_private.Common.{ℕ, ◌≡◌, refl, sym, ap, true, [], ◌∷◌, ◌++◌, Bytes, some, ok}
use avangard_private.Duplex.{Duplex}
use avangard_private.Auth.Frames.{frame}
use avangard_private.Auth.Handshake.{Noise, client_handshake}
use avangard_private.Auth.Handshake.Agreement.{
  Completes, opened, shaken, client_result, same_channel, server_result, client_handshake_lem,
  server_handshake_lem,
}
use avangard_private.Transport.{
  TunnelStream, ClientConfig, client_hello_payload, server_hello_payload,
}
use avangard_private.Dialer.{Network, alpn, http_1_1, tls_config, quic_dial, ws_dial, dial_outer}
use avangard_private.Dialer.Profile.{dial_tls_mimics}
use avangard_private.Servers.{
  StreamServer, closed, authenticated, sends, finds_done, handle_stream, handle_ws, handle_outer,
}

-- A network in which each connection comes about, and the one that Noise runs over is this one.
abbrev pub carrying : Network → Duplex → Network
carrying net stream = record net {
  tcp = λ addr. true;
  tls = λ hello conf. some stream;
  open_stream = some stream;
  upgrade = λ host path conn. some stream;
  smux = λ conn. true;
}

module _ (N : Noise) (s : StreamServer) (c : ClientConfig)
    (k : Completes N s.noise_static s.prologue client_hello_payload server_hello_payload)
    (key : c.server_static_pub ≡ s.noise_static.public) (pro : c.prologue ≡ s.prologue) where
  abbrev dialed : ℕ → Bytes → TunnelStream
  dialed n rest = record {
    channel = (client_result N k).hash;
    conn = shaken N n rest (frame k.msg1.body);
  }

  abbrev served : ℕ → Bytes → TunnelStream
  served m rest = record {
    channel = (server_result N k).hash;
    conn = shaken N m rest (frame k.msg2.body);
  }

  client_side :
      (n : ℕ) (rest : Bytes)
      → client_handshake N c.server_static_pub c.prologue client_hello_payload
          (opened N n (frame k.msg2.body ++ rest))
        ≡ ok (client_result N k, shaken N n rest (frame k.msg1.body))
  client_side n rest = rw (key, pro) (client_handshake_lem N k n rest)

  dials :
      (net : Network) (path rest : Bytes) (n : ℕ)
      → let net' = carrying net (opened N n (frame k.msg2.body ++ rest)) in
        ((quic_dial N net' c).1 ≡ ok (dialed n rest))
        × ((ws_dial N net' path c).1 ≡ ok (dialed n rest))
        × ((dial_outer N net' c).1 ≡ ok (dialed n rest))
  unfolding quic_dial ws_dial dial_outer
  dials net path rest n =
      let net' = carrying net (opened N n (frame k.msg2.body ++ rest)) in
      let over = client_side n rest in
      (
        rw over refl,
        rw (dial_tls_mimics net' (tls_config (http_1_1 ∷ []) c) c.fingerprint) (rw over refl),
        rw (dial_tls_mimics net' (tls_config (alpn ∷ []) c) c.fingerprint) (rw over refl),
      )

  -- If the Noise library does what it documents, for a client that has the server's public key and
  -- prologue, over a network that carries what each side sends: the dials of quic and ws and smux's `dialOuter`
  -- succeed, and while the server is open its handlers pass the stream on to `Accept`, with the
  -- channel binding that the client has (for smux, any stream of the session has it). Each side has
  -- sent what the other one was fed, and what was sent behind the handshake is left to read. A handler that
  -- finds the server closed closes the connection.
  pub transports_agree :
      (net : Network) (path rest_c rest_s : Bytes) (m n : ℕ) (stream : Duplex)
      → (from_c from_s : Bytes) × (ts ts_s : TunnelStream) × (let net' =
            carrying net (opened N n (from_s ++ rest_c)) in
          ((quic_dial N net' c).1 ≡ ok ts)
          × ((ws_dial N net' path c).1 ≡ ok ts)
          × ((dial_outer N net' c).1 ≡ ok ts))
        × (let conn = opened N m (from_c ++ rest_s) in
            (handle_stream N s conn sends ≡ authenticated ts_s)
            × (handle_ws N s (some conn) sends ≡ authenticated ts_s)
            × (handle_outer N s (some conn) true (some stream) sends
                ≡ authenticated (record { channel = ts.channel; conn = stream }))
            × (handle_stream N s conn finds_done ≡ closed)
            × (handle_ws N s (some conn) finds_done ≡ closed)
            × (handle_outer N s (some conn) true (some stream) finds_done ≡ closed))
        × (ts.channel ≡ ts_s.channel)
        × (ts.conn ≡ shaken N n rest_c from_c)
        × (ts_s.conn ≡ shaken N m rest_s from_s)
  unfolding handle_stream handle_ws handle_outer
  transports_agree net path rest_c rest_s m n stream =
      let shake = server_handshake_lem N k m rest_s in
      (
        frame k.msg1.body,
        frame k.msg2.body,
        dialed n rest_c,
        served m rest_s,
        dials net path rest_c n,
        (
          rw shake refl,
          rw shake refl,
          rw shake (
              ap (λ x. authenticated (record { channel = x; conn = stream }))
                (sym (same_channel N k))),
          rw shake refl,
          rw shake refl,
          rw shake refl,
        ),
        same_channel N k,
        refl,
        refl,
      )
