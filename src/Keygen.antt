-- ===== src/Keygen.antt =====
-- cmd/avangard-server/main.go: the keygen command, and how the run command reads the static key again.
-- Flags, printing and files are left out.
pub mod Identity
pub mod Agrees
use avangard_private.Common.{
  ℕ, zero, suc, ◌+◌, ◌*◌, ◌/◌, ◌%◌, ◌^◌, Bool, true, false, List, [], ◌∷◌, ◌++◌, Bytes, length,
  ◌==◌, take, drop, ltb, if◌then◌else◌, Option, none, some, Result, ok, err, ◌>>=◌, ◌>>◌, or_fail,
  codes,
}
use avangard_private.Mode.{mode_auto}
use avangard_private.Config
use avangard_private.Net.{decimal}
use avangard_private.Auth.Handshake.{StaticKey}
use avangard_private.Auth.Keys.{KeyError, static_from_priv}
use avangard_private.Base64.{std_alphabet, encode_raw, decode_raw}
use avangard_private.Uri.{UriConfig, print}

-- `%x` of bytes.
abbrev pub lower_hex : ℕ → ℕ
lower_hex n = if ltb n 10 then 48 + n else 87 + n

unfoldable pub hex : Bytes → Bytes
hex [] = []
hex (b ∷ s) = lower_hex (b / 16) ∷ lower_hex (b % 16) ∷ hex s

abbrev pub update_at : ℕ → (ℕ → ℕ) → Bytes → Bytes
update_at n f [] = []
update_at zero f (b ∷ s) = f b ∷ s
update_at (suc n) f (b ∷ s) = b ∷ update_at n f s

-- `byte(now >> (i * 4))`, from the given index on.
unfoldable pub clock_bytes : ℕ → ℕ → ℕ → Bytes
clock_bytes now i zero = []
clock_bytes now i (suc n) = now / 2 ^ (i * 4) % 256 ∷ clock_bytes now (i + 1) n

-- The bytes of `rand.Read`, or of the clock if it fails.
abbrev pub entropy : Option Bytes → ℕ → Bytes
entropy none now = clock_bytes now 0 16
entropy (some b) now = b

-- The version and the variant: `(b[6] & 0x0f) | 0x40` and `(b[8] & 0x3f) | 0x80`.
abbrev pub versioned : Bytes → Bytes
versioned b = update_at 8 (λ x. x % 64 + 128) (update_at 6 (λ x. x % 16 + 64) b)

abbrev pub uuid_text : Bytes → Bytes
uuid_text b =
    hex (take 4 b)
    ++ (b'-'
        ∷ (hex (take 2 (drop 4 b))
            ++ (b'-'
                ∷ (hex (take 2 (drop 6 b))
                    ++ (b'-' ∷ (hex (take 2 (drop 8 b)) ++ (b'-' ∷ hex (take 6 (drop 10 b)))))))))

-- `genUUID`, with what `rand.Read` and `time.Now` give.
unfoldable pub gen_uuid : Option Bytes → ℕ → Bytes
gen_uuid rand now = uuid_text (versioned (entropy rand now))

-- The link of newKeygenCmd.
unfoldable pub keygen_config : StaticKey → Bytes → Bytes → ℕ → Bytes → UriConfig
keygen_config static uid host port decoy = record {
  uuid = uid;
  host = host;
  port = port;
  sni = decoy;
  fingerprint = [];
  mode = mode_auto;
  region = codes "auto";
  server_pub = static.public;
  tofu_hash = [];
  name = codes "avangard";
}

-- The server's configuration of newKeygenCmd, as the values that its template names.
unfoldable pub keygen_server : StaticKey → Bytes → ℕ → Bytes → Bytes → Config.ServerConfig
keygen_server static uid port decoy out_dir = record {
  listen = record { quic = b':' ∷ decimal port; tcp = b':' ∷ decimal port };
  decoy = record { domain = decoy; addr = decoy ++ codes ":443" };
  tls = record { cert_file = out_dir ++ codes "/cert.pem"; key_file = out_dir ++ codes "/key.pem" };
  auth = record {
    static_privkey_b64 = encode_raw std_alphabet static.private;
    accepted_uuids = uid ∷ [];
  };
  log_level = codes "info";
}

-- What newKeygenCmd makes: the link that it prints, and the server's configuration that it writes to a
-- directory, if one is given.
pub record Generated : Type 0 where
  pub uuid : Bytes
  pub link : Bytes
  pub server : Option Config.ServerConfig

unfoldable pub keygen : StaticKey → Option Bytes → ℕ → Bytes → ℕ → Bytes → Bytes → Generated
keygen static rand now host port decoy out_dir =
    let uid = gen_uuid rand now in
    record {
      uuid = uid;
      link = print (keygen_config static uid host port decoy);
      server =
          if length out_dir == 0 then none else some (keygen_server static uid port decoy out_dir);
    }

pub data ServerKeyError : Type 0 where
  priv_base64 : ServerKeyError
  static_key : KeyError → ServerKeyError

abbrev from_static {ℓ} : {A : Type ℓ} → Result KeyError A → Result ServerKeyError A
from_static (ok a) = ok a
from_static (err e) = err (static_key e)

-- The static key of newRunCmd.
unfoldable pub server_key : (Bytes → Option Bytes) → Bytes → Result ServerKeyError StaticKey
server_key x25519 privkey_b64 = do
  priv ← or_fail (decode_raw std_alphabet privkey_b64) priv_base64
  from_static (static_from_priv x25519 priv)
