-- ===== src/Url/Parse.antt =====
-- net/url: `Parse`, of the fields that pkg/uri uses.
use avangard_private.Common.{
  ℕ, ◌+◌, Bool, true, false, not, ◌&&◌, ◌||◌, [], ◌∷◌, ◌++◌, Bytes, length, ltb, ◌==◌,
  if◌then◌else◌, Option, none, some,
}
use avangard_private.Net.{contains, cut}
use avangard_private.Url.{
  in_user, in_host, in_zone, in_path, in_fragment, between, alphanumeric, all, unescape, cut_or_all,
  cut_last,
}

-- `user` is the user name, if there is a user.
pub record Url : Type 0 where
  pub scheme : Bytes
  pub user : Option Bytes
  pub host : Bytes
  pub raw_query : Bytes
  pub fragment : Bytes

abbrev pub letter : ℕ → Bool
letter c = between 97 122 c || between 65 90 c

abbrev pub digit : ℕ → Bool
digit c = between 48 57 c

abbrev in_front : ℕ → Option (Bytes × Bytes) → Option (Bytes × Bytes)
in_front c none = none
in_front c (some (a, b)) = some (c ∷ a, b)

-- `getScheme` behind the first letter; `none` if no scheme is there.
unfoldable pub scheme_rest : Bytes → Option (Bytes × Bytes)
scheme_rest [] = none
scheme_rest (c ∷ s) =
    let rest = scheme_rest s in
    if c == b':'
    then some ([], s)
    else if letter c || digit c || c == b'+' || c == b'-' || c == b'.'
    then in_front c rest
    else none

abbrev or_no_scheme : Bytes → Option (Bytes × Bytes) → Bytes × Bytes
or_no_scheme s none = ([], s)
or_no_scheme s (some p) = p

-- `getScheme`; a colon in front is an error.
unfoldable pub get_scheme : Bytes → Option (Bytes × Bytes)
get_scheme [] = some ([], [])
get_scheme (c ∷ s) =
    if c == b':'
    then none
    else if letter c
    then some (or_no_scheme (c ∷ s) (in_front c (scheme_rest s)))
    else some ([], c ∷ s)

unfoldable pub to_lower : Bytes → Bytes
to_lower [] = []
to_lower (c ∷ s) = (if between 65 90 c then c + 32 else c) ∷ to_lower s

-- `validUserinfo`: letters, digits and - . _ : ~ ! $ & ' ( ) * + , ; = % @
abbrev pub valid_user : ℕ → Bool
valid_user c =
    alphanumeric c
    || c == 45
    || c == 46
    || c == 95
    || c == 58
    || c == 126
    || c == 33
    || c == 36
    || between 37 44 c
    || c == 59
    || c == 61
    || c == 64

-- `stringContainsCTLByte`, of a byte that is none.
abbrev pub no_control : ℕ → Bool
no_control c = not (ltb c 32 || c == 127)

unfoldable pub valid_optional_port : Bytes → Bool
valid_optional_port [] = true
valid_optional_port (c ∷ s) = c == b':' && all digit s

abbrev both : Option Bytes → Option Bytes → Option Bytes
both none b = none
both (some a) none = none
both (some a) (some b) = some (a ++ b)

-- The host in brackets, with the bracket that ends it. What begins with %25 is a zone.
unfoldable pub zone_from : Bytes → Option (Bytes × Bytes)
zone_from (a ∷ b ∷ c ∷ s) =
    let rest = zone_from (b ∷ c ∷ s) in
    if a == b'%' && b == b'2' && c == b'5' then some ([], a ∷ b ∷ c ∷ s) else in_front a rest
zone_from s = none

abbrev bracketed : Bytes → Bytes → Option Bytes
bracketed inside port = if not (valid_optional_port port) then none else elim (zone_from inside) [
  | none ↦ unescape in_host (inside ++ (b']' ∷ port))
  | some (h, zone) ↦
      both (both (unescape in_host h) (unescape in_zone zone)) (unescape in_host (b']' ∷ port))
]

abbrev pub bare : Bytes → Option Bytes
bare h = elim (cut_last b':' h) [
  | none ↦ unescape in_host h
  | some (name, port) ↦ if all digit port then unescape in_host h else none
]

unfoldable pub parse_host : Bytes → Option Bytes
parse_host [] = some []
parse_host (c ∷ h) =
    if c == b'['
    then (elim (cut_last b']' (c ∷ h)) [
      | none ↦ none
      | some (inside, port) ↦ bracketed inside port
    ])
    else bare (c ∷ h)

-- The user name; a password has to be well-formed.
unfoldable pub parse_user : Bytes → Option Bytes
parse_user info = elim (cut b':' info) [
  | none ↦ unescape in_user info
  | some (name, password) ↦ elim (unescape in_user password) [
    | none ↦ none
    | some p ↦ unescape in_user name
  ]
]

abbrev with_user : Option Bytes → Option Bytes → Option (Option Bytes × Bytes)
with_user none host = none
with_user (some u) none = none
with_user (some u) (some host) = some (some u, host)

abbrev without_user : Option Bytes → Option (Option Bytes × Bytes)
without_user none = none
without_user (some host) = some (none, host)

unfoldable pub parse_authority : Bytes → Option (Option Bytes × Bytes)
parse_authority a = elim (cut_last b'@' a) [
  | none ↦ without_user (parse_host a)
  | some (info, h) ↦
      if all valid_user info then with_user (parse_user info) (parse_host h) else none
]

abbrev from_slash : Option (Bytes × Bytes) → Bytes → Bytes × Bytes
from_slash none s = (s, [])
from_slash (some (a, path)) s = (a, b'/' ∷ path)

-- The URL without its fragment, if the path is well-formed.
abbrev pub with_path : Bytes → Bytes → Bytes → Option (Option Bytes × Bytes) → Option Url
with_path scheme query path none = none
with_path scheme query path (some (user, host)) = elim (unescape in_path path) [
  | none ↦ none
  | some p ↦
      some (record { scheme = scheme; user = user; host = host; raw_query = query; fragment = [] })
]

abbrev opaque : Bytes → Bytes → Bytes → Option Url
opaque scheme query s =
    if length scheme == 0 && contains b':' (cut_or_all b'/' s).0
    then none
    else with_path scheme query (if length scheme == 0 then s else []) (some (none, []))

abbrev pub authority : Bytes → Bytes → Bytes → Option Url
authority scheme query s =
    let (a, path) = from_slash (cut b'/' s) s in with_path scheme query path (parse_authority a)

abbrev starts_with_slash : Bytes → Bool
starts_with_slash [] = false
starts_with_slash (c ∷ s) = c == b'/'

-- Behind the scheme and in front of the query: an authority behind two slashes (but not three, where
-- there is no scheme), and a path.
unfoldable pub parse_rest : Bytes → Bytes → Bytes → Option Url
parse_rest scheme query [] = opaque scheme query []
parse_rest scheme query (c ∷ []) =
    if c == b'/'
    then with_path scheme query (c ∷ []) (some (none, []))
    else opaque scheme query (c ∷ [])
parse_rest scheme query (c ∷ d ∷ s) =
    if not (c == b'/')
    then opaque scheme query (c ∷ d ∷ s)
    else if d == b'/' && not (length scheme == 0 && starts_with_slash s)
    then authority scheme query s
    else with_path scheme query (c ∷ d ∷ s) (some (none, []))

unfoldable pub parse_main : Bytes → Option Url
parse_main u = if not (all no_control u) then none else elim (get_scheme u) [
  | none ↦ none
  | some (scheme, rest) ↦
      let (body, query) = cut_or_all b'?' rest in parse_rest (to_lower scheme) query body
]

abbrev pub with_fragment : Bytes → Option Url → Option Url
with_fragment [] u = u
with_fragment (c ∷ f) none = none
with_fragment (c ∷ f) (some u) = elim (unescape in_fragment (c ∷ f)) [
  | none ↦ none
  | some fragment ↦ some (record u { fragment = fragment })
]

-- `url.Parse`
unfoldable pub parse_url : Bytes → Option Url
parse_url s = let (u, f) = cut_or_all b'#' s in with_fragment f (parse_main u)
