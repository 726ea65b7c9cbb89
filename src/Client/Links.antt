-- ===== src/Client/Links.antt =====
-- cmd/avangard-client/main.go, `buildDialer`: which links give a dialer, and which one.
use avangard_private.Common.{
  ◌≡◌, refl, Bool, true, false, [], ◌∷◌, Bytes, length, length-append, equal, ◌==◌, if◌then◌else◌,
  ok, err, codes, inl, inr, Bool-cases, arith,
}
use avangard_private.Net.{join_host_port, decimal}
use avangard_private.Uri.{UriConfig}
use avangard_private.Transport.{ClientConfig, with_default, default_prologue}
use avangard_private.Dialer.{
  Network, DialerError, TlsConfig, go_hello, bad_static_pub, quic_failed, tls_failed, alpn,
  tls_config, required, dial_tls, new_client_config, new_quic_client,
}
use avangard_private.Dialer.Profile.{dial_tls_mimics}
use avangard_private.Client.{dialer_error, client_config, wrapped, build_dialer}

join_host_port-nonempty : (host port : Bytes) → (length (join_host_port host port) == 0) ≡ false
unfolding join_host_port
join_host_port-nonempty host port =
    ground (arith, length-append host (b':' ∷ port), length-append host (b']' ∷ b':' ∷ port))

-- The configuration of the dialer.
abbrev pub dialer_config : UriConfig → Bool → ClientConfig
dialer_config u insecure = record (client_config u insecure) { prologue = default_prologue }

link_checked :
    (u : UriConfig) (insecure : Bool)
    → new_client_config (client_config u insecure)
      ≡ (if length u.server_pub == 32 then ok (dialer_config u insecure) else err bad_static_pub)
unfolding new_client_config with_default
link_checked u insecure =
    let some_addr = join_host_port-nonempty u.host (decimal u.port) in
    elim (Bool-cases (length u.server_pub == 32)) [
      | inl y ↦ rw (some_addr, y) refl
      | inr n ↦ rw (some_addr, n) refl
    ]

wrapped_if :
    (b : Bool) (c : ClientConfig) (e : DialerError)
    → wrapped (if b then ok c else err e) ≡ (if b then ok c else err (dialer_error e))
wrapped_if true c e = refl
wrapped_if false c e = refl

pub build_tcp :
    (net : Network) (u : UriConfig) (insecure : Bool)
    → build_dialer net u (codes "tcp") insecure ≡ (
        if length u.server_pub == 32
        then ok (dialer_config u insecure)
        else err (dialer_error bad_static_pub))
unfolding build_dialer equal
build_tcp net u insecure =
    rw (link_checked u insecure)
      (wrapped_if (length u.server_pub == 32) (dialer_config u insecure) bad_static_pub)

build_quic :
    (net : Network) (u : UriConfig) (insecure : Bool)
    → let c = dialer_config u insecure in
      build_dialer net u (codes "quic") insecure ≡ (
        if length u.server_pub == 32
        then (if net.quic c.addr (tls_config (alpn ∷ []) c)
            then ok c
            else err (dialer_error quic_failed))
        else err (dialer_error bad_static_pub))
unfolding build_dialer new_quic_client equal
build_quic net u insecure =
    let c = dialer_config u insecure in
    elim (Bool-cases (length u.server_pub == 32)) [
      | inr n ↦ rw (link_checked u insecure, n) refl
      | inl y ↦ elim (Bool-cases (net.quic c.addr (tls_config (alpn ∷ []) c))) [
        | inl q ↦ rw (link_checked u insecure, y) (rw q refl)
        | inr q ↦ rw (link_checked u insecure, y) (rw q refl)
      ]
    ]

-- For tcp, `buildDialer` gives a dialer exactly for a link with a server key of 32 bytes; for quic the
-- connection has to be made as well. The dialer has the link's address, key,
-- identity and server name, and the default prologue. Whatever browser the link names, it makes its
-- TLS handshakes with the ClientHello of Go.
pub build_dialer_links :
    (net : Network) (u : UriConfig) (insecure : Bool) (conf : TlsConfig)
    → let c = dialer_config u insecure in
      (build_dialer net u (codes "tcp") insecure
        ≡ (if length u.server_pub == 32 then ok c else err (dialer_error bad_static_pub)))
      × (build_dialer net u (codes "quic") insecure ≡ (
          if length u.server_pub == 32
          then (if net.quic c.addr (tls_config (alpn ∷ []) c)
              then ok c
              else err (dialer_error quic_failed))
          else err (dialer_error bad_static_pub)))
      × (dial_tls net conf c.fingerprint ≡ required (net.tls go_hello conf) tls_failed)
unfolding build_dialer equal
build_dialer_links net u insecure conf =
    (build_tcp net u insecure, build_quic net u insecure, dial_tls_mimics net conf [])
