-- ===== src/Startup/Sound.antt =====
-- cmd/avangard-server/main.go, `run`: when the server starts, and with which listeners.
use avangard_private.Common.{
  ◌≡◌, ◌≢◌, ◌∙◌, ◌↔◌, ◌⊎◌, inl, inr, refl, sym, ap, Bool, true, [], ◌∷◌, Bytes, Option, none, some,
  ok, err, Bool-cases, Result-cases,
}
use avangard_private.Auth.Handshake.{StaticKey}
use avangard_private.Config
use avangard_private.Config.{load_server}
use avangard_private.Config.Valid.{load_server-IsValid}
use avangard_private.Transport.{default_prologue, with_default}
use avangard_private.Servers
use avangard_private.TcpServer
use avangard_private.Servers.{StreamServer, quic_listen}
use avangard_private.TcpServer.{Server, listen}
use avangard_private.Keygen.{server_key}
use avangard_private.Startup.{
  Host, magic_of, RunError, load_tls, config_error, key_error, quic_error, tcp_error, open_quic,
  open_tcp, Running, some_listener, start,
}

-- The listener at an address can be opened, if there is an address.
abbrev pub Listens : (Bytes → Bool) → Bytes → Type 0
Listens listens [] = Unit
Listens listens (x ∷ addr) = listens (x ∷ addr) ≡ true

abbrev pub quic_of : StaticKey → Bytes → Option StreamServer
quic_of static [] = none
quic_of static (x ∷ addr) = some (record { noise_static = static; prologue = default_prologue })

abbrev pub tcp_of : Host → Config.ServerConfig → StaticKey → Bytes → Option Server
tcp_of w cfg static [] = none
tcp_of w cfg static (x ∷ addr) = some (record {
  magic_snis = magic_of cfg.decoy.domain;
  decoy_addr = cfg.decoy.addr;
  noise_static = static;
  prologue = default_prologue;
  decoy_reachable = w.decoy_reachable;
  tls_handshake = w.tls_handshake;
})

-- The listeners that belong to a configuration.
abbrev pub running : Host → Config.ServerConfig → StaticKey → Running
running w cfg static = record {
  quic = quic_of static cfg.listen.quic;
  tcp = tcp_of w cfg static cfg.listen.tcp;
  accepted_uuids = cfg.auth.accepted_uuids;
}

module _ (w : Host) (cfg : Config.ServerConfig) (static : StaticKey) where
  open_quic_cases :
      (addr : Bytes)
      → ((open_quic w cfg static addr ≡ ok (quic_of static addr)) × Listens w.listens_quic addr)
        ⊎ ((e : RunError) × (open_quic w cfg static addr ≡ err e))
  unfolding quic_listen with_default
  open_quic_cases [] = inl (refl, tt)
  open_quic_cases (x ∷ addr) = elim (Bool-cases (w.listens_quic (x ∷ addr))) [
    | inl y ↦ inl (rw y refl, y)
    | inr n ↦ inr (quic_error Servers.listen_failed, rw n refl)
  ]

  open_tcp_cases :
      (addr : Bytes)
      → ((open_tcp w cfg static addr ≡ ok (tcp_of w cfg static addr)) × Listens w.listens_tcp addr)
        ⊎ ((e : RunError) × (open_tcp w cfg static addr ≡ err e))
  unfolding listen with_default
  open_tcp_cases [] = inl (refl, tt)
  open_tcp_cases (x ∷ addr) = elim (Bool-cases (w.listens_tcp (x ∷ addr))) [
    | inl y ↦ inl (rw y refl, y)
    | inr n ↦ inr (tcp_error TcpServer.listen_failed, rw n refl)
  ]

  open_quic_lem :
      (addr : Bytes)
      → Listens w.listens_quic addr
      → open_quic w cfg static addr ≡ ok (quic_of static addr)
  unfolding quic_listen with_default
  open_quic_lem [] h = refl
  open_quic_lem (x ∷ addr) h = rw h refl

  open_tcp_lem :
      (addr : Bytes)
      → Listens w.listens_tcp addr
      → open_tcp w cfg static addr ≡ ok (tcp_of w cfg static addr)
  unfolding listen with_default
  open_tcp_lem [] h = refl
  open_tcp_lem (x ∷ addr) h = rw h refl

  -- A valid configuration asks for a listener.
  some_listener_of :
      (quic tcp : Bytes)
      → (quic ≢ []) ⊎ (tcp ≢ [])
      → some_listener (quic_of static quic) (tcp_of w cfg static tcp) ≡ true
  some_listener_of [] [] (inl n) = absurd (n refl)
  some_listener_of [] [] (inr n) = absurd (n refl)
  some_listener_of [] (x ∷ tcp) h = refl
  some_listener_of (x ∷ quic) tcp h = refl

-- What the server needs in order to start.
pub record Starts (w : Host) (path : Bytes) (cfg : Config.ServerConfig) (static : StaticKey)
    : Type 0 where
  pub loaded : load_server w.read_file w.decode_yaml path ≡ ok cfg
  pub certificate : w.certificate cfg.tls.cert_file cfg.tls.key_file ≡ true
  pub key : server_key w.x25519 cfg.auth.static_privkey_b64 ≡ ok static
  pub quic : Listens w.listens_quic cfg.listen.quic
  pub tcp : Listens w.listens_tcp cfg.listen.tcp

start_with :
    (w : Host) (path : Bytes) (cfg : Config.ServerConfig) (static : StaticKey)
    → Starts w path cfg static
    → start w path ≡ ok (running w cfg static)
unfolding start
start_with w path cfg static s =
    let valid = load_server-IsValid w.read_file w.decode_yaml path cfg s.loaded in
    rw (s.loaded) (
      rw (s.certificate) (
        rw (s.key) (
          rw
            (
              open_quic_lem w cfg static cfg.listen.quic s.quic,
              open_tcp_lem w cfg static cfg.listen.tcp s.tcp,
            )
            (rw (some_listener_of w cfg static cfg.listen.quic cfg.listen.tcp valid.listens)
              refl))))

start_needs :
    (w : Host) (path : Bytes) (r : Running)
    → start w path ≡ ok r
    → (cfg : Config.ServerConfig) × (static : StaticKey) × Starts w path cfg static
      × (r ≡ running w cfg static)
unfolding start
start_needs w path r h = elim (Result-cases (load_server w.read_file w.decode_yaml path)) [
  | inr (e, l) ↦ let p : start w path ≡ err (config_error e) = rw l refl in absurd (cc)
  | inl (cfg, l) ↦ elim (Bool-cases (w.certificate cfg.tls.cert_file cfg.tls.key_file)) [
    | inr n ↦ let p : start w path ≡ err load_tls = rw l (rw n refl) in absurd (cc)
    | inl y ↦ elim (Result-cases (server_key w.x25519 cfg.auth.static_privkey_b64)) [
      | inr (e, k) ↦
          let p : start w path ≡ err (key_error e) = rw l (rw y (rw k refl)) in absurd (cc)
      | inl (static, k) ↦ elim (open_quic_cases w cfg static cfg.listen.quic) [
        | inr (e, q) ↦ let p : start w path ≡ err e = rw l (rw y (rw k (rw q refl))) in absurd (cc)
        | inl (q, lq) ↦ elim (open_tcp_cases w cfg static cfg.listen.tcp) [
          | inr (e, t) ↦
              let p : start w path ≡ err e = rw l (rw y (rw k (rw (q, t) refl))) in absurd (cc)
          | inl (t, lt) ↦
              let s : Starts w path cfg static = record {
                loaded = l;
                certificate = y;
                key = k;
                quic = lq;
                tcp = lt;
              } in
              let p = start_with w path cfg static s in (cfg, static, s, cc)
        ]
      ]
    ]
  ]
]

-- The run command starts with listeners exactly if the configuration loads, which makes it valid, its
-- certificate and its private key do, and every address that it names can be listened on. Then the listeners are
-- those of that configuration: with the key pair of its private key, the default prologue, for TCP its decoy
-- and the decoy's name as the only one that is not proxied, and the server accepts its identities.
pub start_iff :
    (w : Host) (path : Bytes) (r : Running)
    → (start w path ≡ ok r) ↔ (
        (cfg : Config.ServerConfig) × (static : StaticKey) × Starts w path cfg static
        × (r ≡ running w cfg static))
start_iff w path r =
    (start_needs w path r, λ (cfg, static, s, e). start_with w path cfg static s ∙ ap ok (sym e))
