-- ===== src/Blocklist.antt =====
-- pkg/blocklist/rkn.go: the set of blocked hosts, a bloom filter over FNV hashes. Parameters:
-- `to_lower` (strings.ToLower) and `trim_space` (strings.TrimSpace), which need Unicode's tables, and
-- the XML decoder, as the list of what its calls give.
pub mod Found
pub mod Loads
use Prim.Native.Nat.{bit_xor}
use avangard_private.Common.{
  ℕ, zero, suc, ◌+◌, ◌*◌, ◌%◌, ◌^◌, Bool, true, false, not, ◌&&◌, ◌||◌, List, [], ◌∷◌, Bytes,
  length, drop, equal, ◌==◌, if◌then◌else◌, Option, none, some, codes,
}
use avangard_private.Bitset.{Words, set_rounds, test_rounds, make_words, round_up}

-- `loaded_at` is the time of the last successful load, if there was one.
pub record BlockSet : Type 0 where
  pub bits : Words
  pub m : ℕ
  pub k : ℕ
  pub num_items : ℕ
  pub loaded_at : Option ℕ

unfoldable pub new_set : ℕ → ℕ → BlockSet
unfolding round_up
new_set m k = record {
  bits = make_words (round_up m);
  m = round_up m;
  k = k;
  num_items = 0;
  loaded_at = none;
}

-- The FNV-1a hash of 64 bits (hash/fnv), on from `h`.
unfoldable pub fnv64a : ℕ → Bytes → ℕ
fnv64a h [] = h
fnv64a h (b ∷ s) = fnv64a (bit_xor h b * 1099511628211 % 2 ^ 64) s

abbrev fnv_offset : ℕ
fnv_offset = 14695981039346656037

unfoldable pub idx : Bytes → ℕ → ℕ → ℕ
idx v m i = fnv64a fnv_offset (i % 256 ∷ v) % m

unfoldable pub add : BlockSet → Bytes → BlockSet
add s v = record s { bits = set_rounds (idx v s.m) s.k 0 s.bits; num_items = s.num_items + 1 }

-- The loop of `Contains`.
unfoldable pub has_item : BlockSet → Bytes → Bool
has_item s v = test_rounds (idx v s.m) s.k 0 s.bits

-- `strings.TrimSuffix(s, ".")`
unfoldable pub trim_dot : Bytes → Bytes
trim_dot [] = []
trim_dot (x ∷ []) = if x == b'.' then [] else x ∷ []
trim_dot (x ∷ y ∷ s) = x ∷ trim_dot (y ∷ s)

abbrev starts_scheme : Bytes → Bool
starts_scheme (a ∷ b ∷ c ∷ s) = a == b':' && b == b'/' && c == b'/'
starts_scheme s = false

-- What follows the first "://", or the whole text.
abbrev scheme_from : Bytes → Bytes → Bytes
scheme_from whole [] = whole
scheme_from whole (x ∷ s) =
    let rest = scheme_from whole s in if starts_scheme (x ∷ s) then drop 3 (x ∷ s) else rest

unfoldable pub strip_scheme : Bytes → Bytes
strip_scheme s = scheme_from s s

-- `s[:i]` for the first byte that passes the test, or the whole text.
unfoldable pub before : (ℕ → Bool) → Bytes → Bytes
before p [] = []
before p (x ∷ s) = let rest = before p s in if p x then [] else x ∷ rest

abbrev pub ends_host : ℕ → Bool
ends_host c = c == b'/' || c == b'?' || c == b'#'

abbrev pub is_colon : ℕ → Bool
is_colon c = c == b':'

abbrev pub has_hash : Bytes → Bool
has_hash [] = false
has_hash (c ∷ s) = c == b'#'

abbrev glue : ℕ → List Bytes → List Bytes
glue x [] = (x ∷ []) ∷ []
glue x (l ∷ ls) = (x ∷ l) ∷ ls

-- `strings.Split(s, "\n")`
unfoldable pub split_lines : Bytes → List Bytes
split_lines [] = [] ∷ []
split_lines (x ∷ s) = let rest = split_lines s in if x == 10 then [] ∷ rest else glue x rest

-- What `dec.Token()` gives until the end: an element of this name, with the text that `DecodeElement`
-- makes of it or its error; something else; or an error.
pub data XmlToken : Type 0 where
  element : Bytes → Option Bytes → XmlToken
  other broken : XmlToken

module _ (to_lower : Bytes → Bytes) where
  unfoldable pub normalize : Bytes → Bytes
  normalize s = before is_colon (before ends_host (strip_scheme (trim_dot (to_lower s))))

  unfoldable pub contains : BlockSet → Bytes → Bool
  contains s host = let v = normalize host in if length v == 0 then false else has_item s v

  abbrev pub is_listed : Bytes → Bool
  is_listed name =
      let n = to_lower name in
      equal n (codes "domain")
      || equal n (codes "ip")
      || equal n (codes "ipv6")
      || equal n (codes "url")

  module _ (trim_space : Bytes → Bytes) where
    unfoldable pub add_line : BlockSet → Bytes → BlockSet
    add_line s line =
        let v = normalize (trim_space line) in
        if not (length v == 0) && not (has_hash v) then add s v else s

    unfoldable pub add_lines : BlockSet → List Bytes → BlockSet
    add_lines s [] = s
    add_lines s (l ∷ ls) = add_lines (add_line s l) ls

    -- The text is `none` if the reader fails. The second result says that there was no error.
    unfoldable pub load_domains : ℕ → BlockSet → Option Bytes → BlockSet × Bool
    load_domains now s none = (s, false)
    load_domains now s (some text) =
        (record (add_lines s (split_lines text)) { loaded_at = some now }, true)

    unfoldable pub add_value : BlockSet → Bytes → BlockSet
    add_value s value =
        let v = normalize (trim_space value) in if not (length v == 0) then add s v else s

    -- The loop of `LoadXML`.
    unfoldable pub add_tokens : BlockSet → List XmlToken → BlockSet × Bool
    add_tokens s [] = (s, true)
    add_tokens s (broken ∷ ts) = (s, false)
    add_tokens s (other ∷ ts) = add_tokens s ts
    add_tokens s (element name none ∷ ts) =
        let rest = add_tokens s ts in if is_listed name then (s, false) else rest
    add_tokens s (element name (some value) ∷ ts) = elim (is_listed name) [
      | true ↦ add_tokens (add_value s value) ts
      | false ↦ add_tokens s ts
    ]

    unfoldable pub load_xml : ℕ → BlockSet → List XmlToken → BlockSet × Bool
    load_xml now s tokens =
        let (s', done) = add_tokens s tokens in
        if done then (record s' { loaded_at = some now }, true) else (s', false)
