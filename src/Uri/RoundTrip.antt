-- ===== src/Uri/RoundTrip.antt =====
-- pkg/uri/uri.go: `Parse` reads back what `String` wrote.
use mathlib.Core.List.{append_assoc}
use avangard_private.Common.{
  ℕ, ◌<◌, ◌^◌, ◌≡◌, ◌⊎◌, ◌∙◌, refl, ap, sym, Bool, true, false, not, ◌&&◌, ◌||◌, [], ◌∷◌, ◌++◌,
  Bytes, IsBytes, length, equal_iff, ◌==◌, some, ok, Bool-cases, inl, inr, codes, arith,
}
use avangard_private.Mode.{mode_auto}
use avangard_private.Net.{join_host_port, decimal}
use avangard_private.Url.{
  in_fragment, alphanumeric, should_escape, all, escape, is_query, encode_query,
}
use avangard_private.Url.Cuts.{
  Lacks, all-append, all_weaken, all-Lacks, contains-Lacks, cut_last-Lacks, cut_last_at,
}
use avangard_private.Url.Query.{query_byte, encode_query-query_byte, parse_query-encode_query}
use avangard_private.Url.Parse.{Url, digit, parse_url}
use avangard_private.Url.Print.{behind, to_string}
use avangard_private.Url.Hosts.{host_byte, escape_host, host_port_bytes, hostname_port-port}
use avangard_private.Url.Reads.{front, front-all, parse_url-to_string}
use avangard_private.Uri.{UriConfig, get_or_default, read_url, parse, query_of, trim_mark, print}
use avangard_private.Uri.Numbers.{decimal-digit, atoi-decimal, decimal-nonempty}
use avangard_private.Uri.Queries.{
  decode_pk-pk_text, get-sni, get-fp, get-mode, get-region, get-pk, get-tofu, HasBytes,
  query_of-AllBytes,
}

-- The bytes of host names.
abbrev pub name_byte : ℕ → Bool
name_byte c = alphanumeric c || c == 45 || c == 46

-- A link with a user and a host that is a name, a port of a signed word, a key of 32 bytes or none, and
-- no question mark in its name.
pub record IsPrintable (c : UriConfig) : Type 0 where
  pub bytes : HasBytes c
  pub has_uuid : (length c.uuid == 0) ≡ false
  pub has_host : (length c.host == 0) ≡ false
  pub host_name : all name_byte c.host ≡ true
  pub port_word : c.port < 2 ^ 63
  pub key : (length c.server_pub ≡ 32) ⊎ (c.server_pub ≡ [])
  pub no_mark : Lacks b'?' c.name

escape-Lacks_mark : (s : Bytes) → IsBytes s → Lacks b'?' s → Lacks b'?' (escape in_fragment s)
unfolding escape all
escape-Lacks_mark [] b h = refl
escape-Lacks_mark (c ∷ s) (lt, b) h =
    let rest = escape-Lacks_mark s b (ground (arith, h)) in
    let no_space : (c == 32 && is_query in_fragment) ≡ false = ground arith in
    rw no_space (elim (Bool-cases (should_escape c in_fragment)) [
      | inl y ↦ rw y (ground (arith, rest))
      | inr n ↦ rw n (ground (arith, rest, h))
    ])

trim_mark-Lacks : (s : Bytes) → Lacks b'?' s → trim_mark s ≡ s
unfolding trim_mark
trim_mark-Lacks s h = rw (cut_last-Lacks b'?' s h) refl

trim_mark_at :
    (s t : Bytes) (x : ℕ) → Lacks b'?' (x ∷ t) → trim_mark (s ++ b'?' ∷ x ∷ t) ≡ s ++ b'?' ∷ x ∷ t
unfolding trim_mark
trim_mark_at s t x h = rw (cut_last_at b'?' s (x ∷ t) h) refl

-- A question mark is trimmed only where a query is empty, and then none was written.
trim_mark_query :
    (s q t : Bytes)
    → Lacks b'?' s
    → Lacks b'?' q
    → Lacks b'?' t
    → trim_mark ((s ++ behind b'?' q) ++ t) ≡ (s ++ behind b'?' q) ++ t
trim_mark_query s [] t hs hq ht = trim_mark-Lacks ((s ++ []) ++ t) (
    all-append (λ c. not (c == b'?')) (s ++ []) t (all-append (λ c. not (c == b'?')) s [] hs hq) ht)
trim_mark_query s (x ∷ q) t hs hq ht =
    let some_query : (length (x ∷ q) == 0) ≡ false = ground arith in
    let moved : (s ++ b'?' ∷ x ∷ q) ++ t ≡ s ++ b'?' ∷ x ∷ (q ++ t) =
      append_assoc s (b'?' ∷ x ∷ q) t in
    rw some_query (
      ap trim_mark moved
      ∙ trim_mark_at s (q ++ t) x (all-append (λ c. not (c == b'?')) (x ∷ q) t hq ht)
      ∙ sym moved)

behind-Lacks : (c x : ℕ) (s : Bytes) → (c == x) ≡ false → Lacks x s → Lacks x (behind c s)
behind-Lacks c x [] n h = h
behind-Lacks c x (y ∷ s) n h =
    let some_text : (length (y ∷ s) == 0) ≡ false = ground arith in
    rw some_text (unfold all in rw n h)

name-host_byte : (s : Bytes) → all name_byte s ≡ true → all host_byte s ≡ true
name-host_byte s h = all_weaken name_byte host_byte s (λ c k. ground (arith, k)) h

join_host_port_name :
    (host port : Bytes) → all name_byte host ≡ true → join_host_port host port ≡ host ++ b':' ∷ port
unfolding join_host_port
join_host_port_name host port h =
    rw (contains-Lacks b':' host (all-Lacks name_byte b':' host refl h)) refl

module _ (u name port q f : Bytes) (b : IsBytes u) (h : all host_byte name ≡ true)
    (d : all digit port ≡ true) (k : all query_byte q ≡ true) where
  trim_mark-to_string :
      IsBytes f
      → Lacks b'?' f
      → trim_mark (to_string (codes "avangard") u (name ++ b':' ∷ port) q f)
        ≡ to_string (codes "avangard") u (name ++ b':' ∷ port) q f
  unfolding to_string
  trim_mark-to_string bf m =
      let host = name ++ b':' ∷ port in
      rw (escape_host host (host_port_bytes name port h d)) (
        trim_mark_query (front u name port b h d q k) q (behind b'#' (escape in_fragment f))
          (front-all u name port b h d q k (λ c. not (c == b'?')) (unfold all in refl) refl
            (λ c k. ground (arith, k)) (λ c k. ground (arith, k)))
          (all-Lacks query_byte b'?' q refl k)
          (behind-Lacks b'#' b'?' (escape in_fragment f) refl (escape-Lacks_mark f bf m)))

module _ (c : UriConfig) (p : IsPrintable c) where
  abbrev port : Bytes
  port = decimal c.port

  abbrev query : Bytes
  query = encode_query (query_of c)

  -- What the printed link parses as.
  abbrev link : Url
  link = record {
    scheme = codes "avangard";
    user = some c.uuid;
    host = c.host ++ b':' ∷ port;
    raw_query = query;
    fragment = c.name;
  }

  printed : parse_url (print c) ≡ some link
  unfolding print
  printed =
      let hosts = name-host_byte c.host p.host_name in
      let digits = decimal-digit c.port in
      let queries = encode_query-query_byte (query_of c) (query_of-AllBytes c p.bytes) in
      rw (join_host_port_name c.host port p.host_name) (
        ap parse_url (
          trim_mark-to_string c.uuid c.host port query c.name p.bytes.uuid hosts digits queries
            p.bytes.name p.no_mark)
        ∙ parse_url-to_string c.uuid c.host port p.bytes.uuid hosts digits query queries c.name
            p.bytes.name)

  -- The link that is read: an empty mode and an empty region have become "auto".
  abbrev pub with_defaults : UriConfig
  with_defaults = record c {
    mode = get_or_default c.mode mode_auto;
    region = get_or_default c.region (codes "auto");
  }

  read_url_link : read_url link ≡ ok with_defaults
  unfolding read_url
  read_url_link =
      let scheme_ok = (equal_iff (codes "avangard") (codes "avangard")).1 refl in
      let place =
        hostname_port-port c.host port (name-host_byte c.host p.host_name) (decimal-digit c.port) in
      let values = parse_query-encode_query (query_of c) (query_of-AllBytes c p.bytes) in
      rw (scheme_ok, p.has_uuid, place)
        (rw (p.has_host, decimal-nonempty c.port, atoi-decimal c.port p.port_word, values)
          (rw (get-sni c, get-fp c, get-mode c, get-region c, get-pk c, get-tofu c)
            (rw (decode_pk-pk_text c.server_pub p.bytes.server_pub p.key) refl)))

  -- `Parse` reads the text that `String` writes of a link back as that link, except that an empty mode or
  -- region has become "auto"; for a link of texts of bytes with a user, a host name of letters, digits, dots and dashes, a port of a
  -- signed word, a server key of 32 bytes or none, and no question mark in its name.
  pub parse-print : parse (print c) ≡ ok with_defaults
  unfolding parse
  parse-print = rw printed read_url_link
