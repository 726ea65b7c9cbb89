-- ===== src/Keygen/Agrees.antt =====
-- What `keygen` makes: the server reads its key again, and the client reads the link.
use avangard_private.Common.{
  ℕ, ◌^◌, ◌<◌, ◌≡◌, refl, Bool, true, false, [], Bytes, IsBytes, length, ◌==◌, Option, some, ok,
  inl, codes, arith,
}
use avangard_private.Net.{join_host_port, decimal}
use avangard_private.Auth.Handshake.{StaticKey}
use avangard_private.Auth.Keys.{static_from_priv}
use avangard_private.Base64.{std_alphabet, encode_raw}
use avangard_private.Base64.RoundTrip.{decode_raw_std}
use avangard_private.Url.{all}
use avangard_private.Transport.{ClientConfig, default_prologue}
use avangard_private.Uri.{UriConfig, get_or_default, parse, print}
use avangard_private.Uri.RoundTrip.{IsPrintable, name_byte, parse-print}
use avangard_private.Dialer.{Network}
use avangard_private.Client.{open_link}
use avangard_private.Client.Links.{build_tcp}
use avangard_private.Keygen.{keygen_config, gen_uuid, server_key}
use avangard_private.Keygen.Identity.{GivesBytes, gen_uuid-IsBytes, gen_uuid-nonempty}

-- What keygen is given: a key pair of X25519, random bytes, and a public host that is a name, a port of a signed
-- word and a decoy that is a text.
pub record IsInput (x25519 : Bytes → Option Bytes) (static : StaticKey) (rand : Option Bytes)
    (host : Bytes) (port : ℕ) (decoy : Bytes) : Type 0 where
  pub key_pair : x25519 static.private ≡ some static.public
  pub private_length : length static.private ≡ 32
  pub private_bytes : IsBytes static.private
  pub public_length : length static.public ≡ 32
  pub public_bytes : IsBytes static.public
  pub random : GivesBytes rand
  pub host_name : all name_byte host ≡ true
  pub has_host : (length host == 0) ≡ false
  pub port_word : port < 2 ^ 63
  pub decoy_bytes : IsBytes decoy

module _ (x25519 : Bytes → Option Bytes) (static : StaticKey) (rand : Option Bytes) (now : ℕ)
    (host : Bytes) (port : ℕ) (decoy : Bytes) (i : IsInput x25519 static rand host port decoy) where
  abbrev pub config : UriConfig
  config = keygen_config static (gen_uuid rand now) host port decoy

  config-IsPrintable : IsPrintable config
  unfolding keygen_config all
  config-IsPrintable = record {
    bytes = record {
      uuid = gen_uuid-IsBytes rand now i.random;
      sni = i.decoy_bytes;
      fingerprint = tt;
      mode = omega arith;
      region = omega arith;
      server_pub = i.public_bytes;
      tofu_hash = tt;
      name = omega arith;
    };
    has_uuid = gen_uuid-nonempty rand now;
    has_host = i.has_host;
    host_name = i.host_name;
    port_word = i.port_word;
    key = inl i.public_length;
    no_mark = refl;
  }

  link_read : parse (print config) ≡ ok config
  unfolding keygen_config get_or_default
  link_read = parse-print config config-IsPrintable

  -- The run command reads the key pair again of the private key in the configuration.
  pub key_read : server_key x25519 (encode_raw std_alphabet static.private) ≡ ok static
  unfolding server_key static_from_priv
  key_read =
      let full : (length static.private == 32) ≡ true = ground (arith, i.private_length) in
      rw (decode_raw_std static.private i.private_bytes) (rw full (rw (i.key_pair) refl))

  -- The dialer that the client makes of the link.
  abbrev pub dialer : Bool → ClientConfig
  dialer insecure = record {
    addr = join_host_port host (decimal port);
    uuid = gen_uuid rand now;
    sni = decoy;
    server_static_pub = static.public;
    insecure_skip_verify = insecure;
    prologue = default_prologue;
    fingerprint = [];
  }

  pub link_opens :
      (net : Network) (insecure : Bool)
      → open_link net (print config) (codes "tcp") insecure
        ≡ ok (dialer insecure, gen_uuid rand now)
  unfolding open_link keygen_config
  link_opens net insecure =
      let full : (length static.public == 32) ≡ true = ground (arith, i.public_length) in
      rw (link_read, build_tcp net config insecure) (rw full refl)
