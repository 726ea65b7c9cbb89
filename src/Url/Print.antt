-- ===== src/Url/Print.antt =====
-- net/url: `URL.String`, `Hostname` and `Port`, of the fields that pkg/uri uses.
use avangard_private.Common.{ℕ, ◌&&◌, [], ◌∷◌, ◌++◌, Bytes, length, ◌==◌, if◌then◌else◌, none, some}
use avangard_private.Url.{in_user, in_host, in_fragment, all, escape, cut_last}
use avangard_private.Url.Parse.{digit}

abbrev pub behind : ℕ → Bytes → Bytes
behind c s = if length s == 0 then [] else c ∷ s

abbrev pub user_at_host : Bytes → Bytes → Bytes
user_at_host user host = escape in_user user ++ (b'@' ∷ escape in_host host)

-- `URL.String`, of a URL with a scheme, a user without a password, a host and no path.
unfoldable pub to_string : Bytes → Bytes → Bytes → Bytes → Bytes → Bytes
to_string scheme user host raw_query fragment =
    ((scheme ++ (b':' ∷ b'/' ∷ b'/' ∷ user_at_host user host)) ++ behind b'?' raw_query)
    ++ behind b'#' (escape in_fragment fragment)

abbrev pub unbracketed : Bytes → Bytes
unbracketed [] = []
unbracketed (c ∷ s) = elim (cut_last b']' s) [
  | none ↦ c ∷ s
  | some (a, rest) ↦ if c == b'[' && length rest == 0 then a else c ∷ s
]

-- `Hostname` and `Port`.
unfoldable pub hostname_port : Bytes → Bytes × Bytes
hostname_port h = elim (cut_last b':' h) [
  | none ↦ (unbracketed h, [])
  | some (name, port) ↦ if all digit port then (unbracketed name, port) else (unbracketed h, [])
]
