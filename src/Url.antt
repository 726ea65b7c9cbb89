-- ===== src/Url.antt =====
-- What pkg/uri uses of Go's net/url: escaping, queries, and the URLs of the form scheme://user@host?query#fragment
-- that it writes and reads. A URL that `Parse` refuses is `none`, whatever the error.
pub mod Escape
pub mod Query
pub mod Cuts
pub mod Parse
pub mod Print
pub mod Hosts
pub mod Reads
use avangard_private.Common.{
  ℕ, ◌+◌, ◌-◌, ◌*◌, ◌/◌, ◌%◌, Bool, true, false, not, ◌&&◌, ◌||◌, List, [], ◌∷◌, ◌++◌, Bytes,
  length, ltb, leb, equal, ◌==◌, if◌then◌else◌, Option, none, some,
}
use avangard_private.Net.{contains, cut}

-- The parts of a URL that escape in ways of their own.
pub data Part : Type 0 where
  in_query in_user in_host in_zone in_path in_fragment : Part

abbrev pub is_query : Part → Bool
is_query in_query = true
is_query p = false

abbrev pub is_host : Part → Bool
is_host in_host = true
is_host in_zone = true
is_host p = false

abbrev pub between : ℕ → ℕ → ℕ → Bool
between a b c = leb a c && leb c b

abbrev pub alphanumeric : ℕ → Bool
alphanumeric c = between 97 122 c || between 65 90 c || between 48 57 c

-- - _ . ~
abbrev pub mark : ℕ → Bool
mark c = c == 45 || c == 95 || c == 46 || c == 126

-- $ & + , / : ; = ? @
abbrev pub reserved : ℕ → Bool
reserved c =
    c == 36
    || c == 38
    || c == 43
    || c == 44
    || c == 47
    || c == 58
    || c == 59
    || c == 61
    || c == 63
    || c == 64

-- ! $ & ' ( ) * + , ; = : [ ] < > "
abbrev pub in_host_too : ℕ → Bool
in_host_too c =
    c == 33
    || c == 36
    || between 38 44 c
    || c == 59
    || c == 61
    || c == 58
    || c == 91
    || c == 93
    || c == 60
    || c == 62
    || c == 34

-- `shouldEscape` of a byte that is neither a letter nor a digit nor a mark.
abbrev pub should_escape_other : ℕ → Part → Bool
should_escape_other c in_query = true
should_escape_other c in_host = not (in_host_too c)
should_escape_other c in_zone = not (in_host_too c)
should_escape_other c in_user = not (reserved c) || c == 64 || c == 47 || c == 63 || c == 58
should_escape_other c in_path = not (reserved c) || c == 63
should_escape_other c in_fragment = not (reserved c || c == 33 || c == 40 || c == 41 || c == 42)

unfoldable pub should_escape : ℕ → Part → Bool
should_escape c p = not (alphanumeric c || mark c) && should_escape_other c p

abbrev pub hex_digit : ℕ → ℕ
hex_digit n = if ltb n 10 then 48 + n else 55 + n

abbrev pub unhex : ℕ → Option ℕ
unhex c =
    if between 48 57 c
    then some (c - 48)
    else if between 97 102 c
    then some (c - 87)
    else if between 65 70 c
    then some (c - 55)
    else none

unfoldable pub escape : Part → Bytes → Bytes
escape p [] = []
escape p (c ∷ s) =
    let rest = escape p s in
    if c == 32 && is_query p
    then 43 ∷ rest
    else if should_escape c p
    then 37 ∷ hex_digit (c / 16) ∷ hex_digit (c % 16) ∷ rest
    else c ∷ rest

-- Every byte passes the test.
unfoldable pub all : (ℕ → Bool) → Bytes → Bool
all t [] = true
all t (c ∷ s) = t c && all t s

abbrev pub onto : ℕ → Option Bytes → Option Bytes
onto c none = none
onto c (some s) = some (c ∷ s)

-- A byte that is no escape. In a host, an ASCII byte that has to be escaped is an error.
abbrev pub plain : Part → ℕ → Option Bytes → Option Bytes
plain p c rest =
    if c == 37 || (is_host p && ltb c 128 && should_escape c p)
    then none
    else onto (if c == 43 && is_query p then 32 else c) rest

-- In a host, only %25 and bytes that are not ASCII may be escaped; in a zone, only %25, spaces, and
-- what a host need not escape.
abbrev pub bad_escape : Part → ℕ → ℕ → Bool
bad_escape in_host a b = ltb a 8 && not (a == 2 && b == 5)
bad_escape in_zone a b =
    not (a == 2 && b == 5) && not (a * 16 + b == 32) && should_escape (a * 16 + b) in_host
bad_escape p a b = false

abbrev pub escaped : Part → Option ℕ → Option ℕ → Option Bytes → Option Bytes
escaped p none b rest = none
escaped p (some a) none rest = none
escaped p (some a) (some b) rest = if bad_escape p a b then none else onto (a * 16 + b) rest

unfoldable pub unescape : Part → Bytes → Option Bytes
unescape p [] = some []
unescape p (c ∷ []) = plain p c (some [])
unescape p (c ∷ a ∷ []) = plain p c (plain p a (some []))
unescape p (c ∷ a ∷ b ∷ s) =
    let far = unescape p s in
    let near = unescape p (a ∷ b ∷ s) in
    if c == 37 then escaped p (unhex a) (unhex b) far else plain p c near

-- `Values`, in the order of its keys; a key has one value here, as nothing but `Set` fills it.
abbrev pub Values : Type 0
Values = List (Bytes × Bytes)

-- The order of strings.
unfoldable pub sorts_before : Bytes → Bytes → Bool
sorts_before [] [] = false
sorts_before [] (y ∷ ys) = true
sorts_before (x ∷ xs) [] = false
sorts_before (x ∷ xs) (y ∷ ys) = let rest = sorts_before xs ys in ltb x y || (x == y && rest)

unfoldable pub set : Bytes → Bytes → Values → Values
set k v [] = (k, v) ∷ []
set k v ((j, w) ∷ q) =
    let rest = set k v q in
    if equal j k
    then (k, v) ∷ q
    else if sorts_before k j
    then (k, v) ∷ (j, w) ∷ q
    else (j, w) ∷ rest

-- The first value of a key, or the empty string.
unfoldable pub get : Bytes → Values → Bytes
get k [] = []
get k ((j, w) ∷ q) = let rest = get k q in if equal j k then w else rest

abbrev pub pair : Bytes × Bytes → Bytes
pair (k, v) = escape in_query k ++ (61 ∷ escape in_query v)

-- `Values.Encode`
unfoldable pub encode_query : Values → Bytes
encode_query [] = []
encode_query (kv ∷ []) = pair kv
encode_query (kv ∷ kv' ∷ q) = pair kv ++ (38 ∷ encode_query (kv' ∷ q))

-- What stands before the first `c` and behind it; all of it and nothing, if there is none (`strings.Cut`).
abbrev pub cut_or_all : ℕ → Bytes → Bytes × Bytes
cut_or_all c s = elim (cut c s) [ none ↦ (s, []) | some (a, b) ↦ (a, b) ]

abbrev pub unescaped_pair : Option Bytes → Option Bytes → Values → Values
unescaped_pair none v q = q
unescaped_pair (some k) none q = q
unescaped_pair (some k) (some v) q = (k, v) ∷ q

-- One piece of a query, in front of the values of the later pieces. A piece with an error is left out.
unfoldable pub parse_pair : Bytes → Values → Values
parse_pair [] q = q
parse_pair (x ∷ s) q =
    if contains 59 (x ∷ s)
    then q
    else (let (k, v) = cut_or_all 61 (x ∷ s) in
        unescaped_pair (unescape in_query k) (unescape in_query v) q)

-- The text cut at the last `c`, which is left out.
abbrev pub later : ℕ → Bytes → Bool → Option (Bytes × Bytes) → Option (Bytes × Bytes)
later x s here (some (a, b)) = some (x ∷ a, b)
later x s here none = if here then some ([], s) else none

unfoldable pub cut_last : ℕ → Bytes → Option (Bytes × Bytes)
cut_last c [] = none
cut_last c (x ∷ s) = later x s (x == c) (cut_last c s)

abbrev pub glue : ℕ → List Bytes → List Bytes
glue x [] = (x ∷ []) ∷ []
glue x (p ∷ ps) = (x ∷ p) ∷ ps

-- The pieces between the bytes `c`.
unfoldable pub pieces : ℕ → Bytes → List Bytes
pieces c [] = [] ∷ []
pieces c (x ∷ s) = let rest = pieces c s in if x == c then [] ∷ rest else glue x rest

abbrev pub parse_pairs : List Bytes → Values
parse_pairs [] = []
parse_pairs (p ∷ ps) = parse_pair p (parse_pairs ps)

-- `URL.Query`, by way of `ParseQuery`.
unfoldable pub parse_query : Bytes → Values
parse_query s = parse_pairs (pieces 38 s)
