-- ===== src/Config/Valid.antt =====
-- pkg/config/config.go: what `Validate` accepts.
use avangard_private.Common.{
  ◌≡◌, ◌≢◌, ◌↔◌, ◌⊎◌, inl, inr, false, List, [], ◌∷◌, Bytes, Option, ok, arith, length-ne-zero,
  Result-cases, Bool-cases, ◌==◌, length, ◌&&◌, ◌||◌, subst,
}
use avangard_private.Config.{ServerConfig, validate_server, load_yaml, load_server}

pub record IsValid (c : ServerConfig) : Type 0 where
  pub listens : (c.listen.quic ≢ []) ⊎ (c.listen.tcp ≢ [])
  pub certificate : c.tls.cert_file ≢ []
  pub key : c.tls.key_file ≢ []
  pub uuids : c.auth.accepted_uuids ≢ []
  pub private_key : c.auth.static_privkey_b64 ≢ []

nonempty {ℓ} : {A : Type ℓ} (xs : List A) → (length xs == 0) ≡ false → xs ≢ []
nonempty [] h e = absurd (ground arith)
nonempty (x ∷ xs) h e = cc

-- The four tests of `Validate`.
validate_server_tests :
    (c : ServerConfig)
    → validate_server c ≡ ok tt
    → ((length c.listen.quic == 0 && length c.listen.tcp == 0) ≡ false)
      × ((length c.tls.cert_file == 0 || length c.tls.key_file == 0) ≡ false)
      × ((length c.auth.accepted_uuids == 0) ≡ false)
      × ((length c.auth.static_privkey_b64 == 0) ≡ false)
unfolding validate_server
validate_server_tests c h = ground arith

-- `Validate` accepts a server's configuration exactly if it has an address for QUIC or TCP, both TLS
-- files, an identity and the private key.
pub validate_server_iff : (c : ServerConfig) → (validate_server c ≡ ok tt) ↔ IsValid c
unfolding validate_server
validate_server_iff c = (
  λ h.
      let t = validate_server_tests c h in
      record {
        listens = elim (Bool-cases (length c.listen.quic == 0)) [
          | inl e ↦ inr (nonempty c.listen.tcp (ground arith))
          | inr e ↦ inl (nonempty c.listen.quic e)
        ];
        certificate = nonempty c.tls.cert_file (ground arith);
        key = nonempty c.tls.key_file (ground arith);
        uuids = nonempty c.auth.accepted_uuids t.2;
        private_key = nonempty c.auth.static_privkey_b64 t.3;
      },
  λ v.
      let a : (length c.listen.quic == 0 && length c.listen.tcp == 0) ≡ false = elim v.listens [
        | inl n ↦ ground (arith, length-ne-zero c.listen.quic n)
        | inr n ↦ ground (arith, length-ne-zero c.listen.tcp n)
      ] in
      ground (
        arith,
        length-ne-zero c.tls.cert_file v.certificate,
        length-ne-zero c.tls.key_file v.key,
        length-ne-zero c.auth.accepted_uuids v.uuids,
        length-ne-zero c.auth.static_privkey_b64 v.private_key,
      ),
)

-- A configuration that `LoadServer` returns is valid.
pub load_server-IsValid :
    (read_file : Bytes → Option Bytes) (decode : Bytes → Option ServerConfig) (path : Bytes)
    (c : ServerConfig)
    → load_server read_file decode path ≡ ok c
    → IsValid c
unfolding load_server
load_server-IsValid read_file decode path c h =
    elim (Result-cases (load_yaml read_file decode path)) [
      | inr (e, q) ↦ absurd (ground arith)
      | inl (d, q) ↦ elim (Result-cases (validate_server d)) [
        | inr (e, r) ↦ absurd (ground arith)
        | inl (u, r) ↦
            let same : d ≡ c = ground arith in subst IsValid same ((validate_server_iff d).0 r)
      ]
    ]
