-- ===== src/Config.antt =====
-- pkg/config/config.go: the two configurations, `Validate` and `Load`. Parameters: reading a file, and
-- the YAML decoder.
pub mod Valid
use avangard_private.Common.{
  ℕ, Bool, not, ◌&&◌, ◌||◌, List, [], ◌∷◌, ◌++◌, Bytes, length, ◌==◌, Option, none, some, Result,
  ok, err, ◌>>=◌, ◌>>◌, guard, or_fail,
}

pub record Listen : Type 0 where
  pub quic : Bytes
  pub tcp : Bytes

pub record Decoy : Type 0 where
  pub domain : Bytes
  pub addr : Bytes

pub record Tls : Type 0 where
  pub cert_file : Bytes
  pub key_file : Bytes

pub record Auth : Type 0 where
  pub static_privkey_b64 : Bytes
  pub accepted_uuids : List Bytes

pub record ServerConfig : Type 0 where
  pub listen : Listen
  pub decoy : Decoy
  pub tls : Tls
  pub auth : Auth
  pub log_level : Bytes

pub record ServerLink : Type 0 where
  pub uri : Bytes
  pub tofu : Bytes

pub record Transport : Type 0 where
  pub preferred : Bytes
  pub ports : List ℕ

pub record RegionShieldConfig : Type 0 where
  pub enabled : Bool
  pub region : Bytes
  pub fallback_chain : List Bytes

pub record LoggingConfig : Type 0 where
  pub level : Bytes
  pub file : Bytes
  pub redact_sni : Bool

pub record ClientConfig : Type 0 where
  pub server : ServerLink
  pub transport : Transport
  pub region_shield : RegionShieldConfig
  pub logging : LoggingConfig

pub data ConfigError : Type 0 where
  no_listener no_certificate no_uuids no_private_key no_uri read_failed parse_failed : ConfigError

abbrev is_empty {ℓ} : {A : Type ℓ} → List A → Bool
is_empty s = length s == 0

unfoldable pub validate_server : ServerConfig → Result ConfigError (Unit {0})
validate_server c = do
  guard (not (is_empty c.listen.quic && is_empty c.listen.tcp)) no_listener
  guard (not (is_empty c.tls.cert_file || is_empty c.tls.key_file)) no_certificate
  guard (not (is_empty c.auth.accepted_uuids)) no_uuids
  guard (not (is_empty c.auth.static_privkey_b64)) no_private_key

unfoldable pub validate_client : ClientConfig → Result ConfigError (Unit {0})
validate_client c = guard (not (is_empty c.server.uri)) no_uri

module _ (read_file : Bytes → Option Bytes) where
  -- `loadYAML`
  unfoldable pub load_yaml {ℓ} : {C : Type ℓ} → (Bytes → Option C) → Bytes → Result ConfigError C
  load_yaml decode path = do
    b ← or_fail (read_file path) read_failed
    or_fail (decode b) parse_failed

  unfoldable pub load_server :
      (Bytes → Option ServerConfig) → Bytes → Result ConfigError ServerConfig
  unfolding load_yaml
  load_server decode path = do c ← load_yaml decode path; validate_server c; ok c

  unfoldable pub load_client :
      (Bytes → Option ClientConfig) → Bytes → Result ConfigError ClientConfig
  unfolding load_yaml
  load_client decode path = do c ← load_yaml decode path; validate_client c; ok c
