-- ===== src/Uri.antt =====
-- pkg/uri/uri.go: `Parse` and `String` of a link.
pub mod Numbers
pub mod Queries
pub mod RoundTrip
use avangard_private.Common.{
  ℕ, ◌+◌, ◌-◌, ◌*◌, ◌^◌, Bool, true, false, not, List, [], ◌∷◌, ◌++◌, Bytes, length, ltb, equal,
  ◌==◌, if◌then◌else◌, Option, none, some, Result, ok, err, ◌>>=◌, ◌>>◌, guard, or_fail, codes,
}
use avangard_private.Mode.{Mode, mode_auto}
use avangard_private.Net.{join_host_port, decimal}
use avangard_private.Base64.{url_alphabet, encode_raw, decode_raw, decode_std}
use avangard_private.Url.{Values, set, get, encode_query, parse_query, all, cut_last}
use avangard_private.Url.Parse.{Url, digit, parse_url}
use avangard_private.Url.Print.{hostname_port, to_string}

-- `Config`, with a port that is not negative.
pub record UriConfig : Type 0 where
  pub uuid : Bytes
  pub host : Bytes
  pub port : ℕ
  pub sni : Bytes
  pub fingerprint : Bytes
  pub mode : Mode
  pub region : Bytes
  pub server_pub : Bytes
  pub tofu_hash : Bytes
  pub name : Bytes

abbrev pub scheme : Bytes
scheme = codes "avangard"

pub data UriError : Type 0 where
  bad_url bad_scheme missing_uuid missing_host missing_port bad_port bad_pk_base64 bad_pk_length :
      UriError

unfoldable pub value_from : ℕ → Bytes → ℕ
value_from acc [] = acc
value_from acc (c ∷ s) = value_from (acc * 10 + (c - 48)) s

-- `strconv.Atoi` of a text that is not empty: it has to be digits, as a port has no sign, and to fit a
-- signed word of 64 bits.
unfoldable pub atoi : Bytes → Option ℕ
atoi s =
    let v = value_from 0 s in
    if not (all digit s) then none else if ltb v (2 ^ 63) then some v else none

unfoldable pub get_or_default : Bytes → Bytes → Bytes
get_or_default v d = if length v == 0 then d else v

abbrev username : Option Bytes → Result UriError Bytes
username none = err missing_uuid
username (some u) = if length u == 0 then err missing_uuid else ok u

abbrev first_of : Option Bytes → Option Bytes → Option Bytes
first_of none b = b
first_of (some a) b = some a

unfoldable pub decode_pk : Bytes → Result UriError Bytes
decode_pk [] = ok []
decode_pk (c ∷ pk) = do
  raw ← or_fail (first_of (decode_raw url_alphabet (c ∷ pk)) (decode_std (c ∷ pk))) bad_pk_base64
  guard (length raw == 32) bad_pk_length
  ok raw

-- `Parse` behind `url.Parse`.
unfoldable pub read_url : Url → Result UriError UriConfig
read_url u = do
  guard (equal u.scheme scheme) bad_scheme
  uuid ← username u.user
  let host = (hostname_port u.host).0
  guard (not (length host == 0)) missing_host
  let port_str = (hostname_port u.host).1
  guard (not (length port_str == 0)) missing_port
  port ← or_fail (atoi port_str) bad_port
  let q = parse_query u.raw_query
  server_pub ← decode_pk (get (codes "pk") q)
  ok (record {
    uuid = uuid;
    host = host;
    port = port;
    sni = get (codes "sni") q;
    fingerprint = get (codes "fp") q;
    mode = get_or_default (get (codes "mode") q) mode_auto;
    region = get_or_default (get (codes "region") q) (codes "auto");
    server_pub = server_pub;
    tofu_hash = get (codes "tofu") q;
    name = u.fragment;
  })

unfoldable pub parse : Bytes → Result UriError UriConfig
parse s = do u ← or_fail (parse_url s) bad_url; read_url u

-- `if v != "" { q.Set(k, v) }`
unfoldable pub set_if : Bytes → Bytes → Values → Values
set_if k v q = if length v == 0 then q else set k v q

abbrev set_pk : Bytes → Values → Values
set_pk server_pub q =
    if length server_pub == 32 then set (codes "pk") (encode_raw url_alphabet server_pub) q else q

unfoldable pub query_of : UriConfig → Values
query_of c = set_if (codes "tofu") c.tofu_hash (
    set_pk c.server_pub (
      set_if (codes "region") c.region (
        set_if (codes "mode") c.mode
          (set_if (codes "fp") c.fingerprint (set_if (codes "sni") c.sni [])))))

abbrev without_suffix : Bytes → Option (Bytes × Bytes) → Bytes
without_suffix s none = s
without_suffix s (some (a, [])) = a
without_suffix s (some (a, x ∷ b)) = s

-- `strings.TrimSuffix(out, "?")`
unfoldable pub trim_mark : Bytes → Bytes
trim_mark s = without_suffix s (cut_last b'?' s)

-- `String`
unfoldable pub print : UriConfig → Bytes
print c = trim_mark (
    to_string scheme c.uuid (join_host_port c.host (decimal c.port)) (encode_query (query_of c))
      c.name)
