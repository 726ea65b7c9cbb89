-- ===== src/Dialer/Closing.antt =====
-- pkg/transport: what the clients' dials leave open.
use avangard_private.Common.{
  ℕ, ◌≡◌, refl, List, [], ◌∷◌, Option, none, some, ◌==◌, Bytes, if◌then◌else◌, Result, ok, err,
  Bool-cases, inl, inr,
}
use avangard_private.Duplex.{Duplex}
use avangard_private.Auth.Handshake.{Noise, HandshakeResult, HandshakeError, client_handshake}
use avangard_private.Transport.{TunnelStream, ClientConfig, client_hello_payload}
use avangard_private.Dialer.{
  Network, DialerError, tcp_failed, alpn, http_1_1, tls_config, dial_tls, Layer, raw, tls_conn,
  ws_conn, quic_send, quic_receive, smux_session, noise_failed, open_failed, also, required,
  DialAction, opens, closes, Dialing, acquire, checked, authenticated, after_noise, shake, tcp_dial,
  ws_dial, quic_dial, dial_outer,
}

abbrev rank : Layer → ℕ
rank raw = 0
rank tls_conn = 1
rank ws_conn = 2
rank quic_send = 3
rank quic_receive = 4
rank smux_session = 5

-- Of a stack of connections, the ones above `l`, which is closed with all that it runs over.
abbrev above : Layer → List Layer → List Layer
above l [] = []
above l (x ∷ s) = if rank x == rank l then [] else x ∷ above l s

-- The stack of connections that are open after these actions.
abbrev pub still_open : List Layer → List DialAction → List Layer
still_open s [] = s
still_open s (opens l ∷ actions) = still_open (l ∷ s) actions
still_open s (closes l ∷ actions) = still_open (above l s) actions

abbrev SettledAs :
    List Layer
    → List Layer
    → (DialerError → List Layer)
    → List DialAction
    → Result DialerError TunnelStream
    → Type 0
SettledAs s expected left actions (ok ts) = still_open s actions ≡ expected
SettledAs s expected left actions (err e) = still_open s actions ≡ left e

-- A dial that begins with the stack `s` open leaves `expected` open if it gives a stream, and `left` of
-- the error if it fails.
abbrev pub Settles :
    List Layer → List Layer → (DialerError → List Layer) → Dialing TunnelStream → Type 0
Settles s expected left d = SettledAs s expected left d.0 d.1

abbrev nothing : DialerError → List Layer
nothing e = []

-- A dial that leaves nothing open if it fails.
abbrev pub Settled : List Layer → List Layer → Dialing TunnelStream → Type 0
Settled s expected d = Settles s expected nothing d

-- What a dial of quic leaves open if it fails.
abbrev pub left_by_quic : DialerError → List Layer
left_by_quic (noise_failed e) = quic_receive ∷ []
left_by_quic e = []

opens-Settled :
    (s expected : List Layer) (l : Layer) (actions : List DialAction)
    (r : Result DialerError TunnelStream)
    → SettledAs (l ∷ s) expected nothing actions r
    → SettledAs s expected nothing (opens l ∷ actions) r
opens-Settled s expected l actions (ok ts) h = h
opens-Settled s expected l actions (err e) h = h

acquire-Settled :
    {A : Type 0} (s expected : List Layer) (l : Layer) (cleanup : List DialAction)
    (r : Result {0, 0} DialerError A) (k : A → Dialing TunnelStream)
    → still_open s cleanup ≡ []
    → ((a : A) → Settled (l ∷ s) expected (k a))
    → Settled s expected (acquire l cleanup r k)
acquire-Settled s expected l cleanup (err e) k c h = c
acquire-Settled s expected l cleanup (ok a) k c h = opens-Settled s expected l (k a).0 (k a).1 (h a)

module _ (N : Noise) where
  authenticated-Settled :
      (s : List Layer) (l : Layer) (r : Result HandshakeError (HandshakeResult N.Cipher × Duplex))
      → above l s ≡ []
      → Settled s s (authenticated N l r)
  authenticated-Settled s l (err e) h = h
  authenticated-Settled s l (ok (hr, conn)) h = refl

  shake-Settled :
      (s : List Layer) (l : Layer) (cfg : ClientConfig) (conn : Duplex)
      → above l s ≡ []
      → Settled s s (shake N l cfg conn)
  shake-Settled s l cfg conn h =
      authenticated-Settled s l
        (client_handshake N cfg.server_static_pub cfg.prologue client_hello_payload conn) h

  after_noise-Settled :
      (net : Network) (r : Result HandshakeError (HandshakeResult N.Cipher × Duplex))
      → Settled
          (tls_conn ∷ raw ∷ [])
          (smux_session ∷ tls_conn ∷ raw ∷ [])
          (after_noise N net (authenticated N tls_conn r))
  after_noise-Settled net (err e) = refl
  after_noise-Settled net (ok (hr, conn)) = elim (Bool-cases (net.smux conn)) [
    | inl e ↦ rw e refl
    | inr e ↦ rw e refl
  ]

  after_stream :
      (r : Result HandshakeError (HandshakeResult N.Cipher × Duplex))
      → Settles [] (quic_receive ∷ quic_send ∷ []) left_by_quic (
          let (actions, d) = authenticated N quic_send r in
          (opens quic_send ∷ opens quic_receive ∷ actions, d))
  after_stream (err e) = refl
  after_stream (ok (hr, conn)) = refl

  quic-Settles :
      (stream : Option Duplex) (cfg : ClientConfig)
      → Settles [] (quic_receive ∷ quic_send ∷ []) left_by_quic (
          acquire quic_send []
            (required stream open_failed)
            λ conn. also quic_receive (shake N quic_send cfg conn))
  quic-Settles none cfg = refl
  quic-Settles (some conn) cfg =
      after_stream (client_handshake N cfg.server_static_pub cfg.prologue client_hello_payload conn)

  -- The beginning of three of the dials.
  after_tls :
      (net : Network) (cfg : ClientConfig) (protos : List Bytes) (expected : List Layer)
      (k : Duplex → Dialing TunnelStream)
      → ((conn : Duplex) → Settled (tls_conn ∷ raw ∷ []) expected (k conn))
      → Settled [] expected (
          acquire raw [] (checked (net.tcp cfg.addr) tcp_failed) λ u.
            acquire tls_conn
              (closes raw ∷ [])
              (dial_tls net (tls_config protos cfg) cfg.fingerprint)
              k)
  after_tls net cfg protos expected k h =
      acquire-Settled [] expected raw [] (checked (net.tcp cfg.addr) tcp_failed)
        (λ u.
          acquire tls_conn (closes raw ∷ []) (dial_tls net (tls_config protos cfg) cfg.fingerprint)
            k)
        refl
        (λ u.
          acquire-Settled (raw ∷ []) expected tls_conn (closes raw ∷ [])
            (dial_tls net (tls_config protos cfg) cfg.fingerprint) k refl h)

  -- Of the clients' `Dial` of tcp and ws, and of `dialOuter` of smux: the call that succeeds leaves open
  -- the connections that its stream runs over, and the one that fails, wherever it fails, has
  -- closed all that it opened. `Dial` of quic leaves both directions of its stream open if it succeeds;
  -- if the Noise handshake fails, it closes only the one in which it sends; and if no stream is opened,
  -- nothing is left.
  pub dials_settle :
      (net : Network) (path : Bytes) (cfg : ClientConfig)
      → Settled [] (tls_conn ∷ raw ∷ []) (tcp_dial N net cfg)
        × Settled [] (ws_conn ∷ tls_conn ∷ raw ∷ []) (ws_dial N net path cfg)
        × Settled [] (smux_session ∷ tls_conn ∷ raw ∷ []) (dial_outer N net cfg)
        × Settles [] (quic_receive ∷ quic_send ∷ []) left_by_quic (quic_dial N net cfg)
  unfolding tcp_dial ws_dial quic_dial dial_outer
  dials_settle net path cfg =
      let on_tls = after_tls net cfg in
      (
        on_tls (alpn ∷ []) _ _ λ conn. shake-Settled _ tls_conn cfg conn refl,
        on_tls (http_1_1 ∷ []) _ _ λ conn.
            acquire-Settled _ _ ws_conn (closes tls_conn ∷ []) _ _ refl
              λ messages. shake-Settled _ ws_conn cfg messages refl,
        on_tls (alpn ∷ []) _ _ λ conn.
            after_noise-Settled net
              (client_handshake N cfg.server_static_pub cfg.prologue client_hello_payload conn),
        quic-Settles net.open_stream cfg,
      )
