-- ===== src/Url/Hosts.antt =====
-- net/url: host names, with a port or without, need no escapes.
use avangard_private.Common.{
  ℕ, ◌≡◌, ◌∙◌, refl, ap, Bool, true, false, ◌&&◌, ◌||◌, [], ◌∷◌, ◌++◌, Bytes, ltb, ◌==◌,
  if◌then◌else◌, Option-cases, some, Bool-cases, inl, inr, arith,
}
use avangard_private.Url.{
  in_host, should_escape, all, escape, unescape, cut_last, onto, is_query, alphanumeric,
}
use avangard_private.Url.Escape.{unescape-plain}
use avangard_private.Url.Cuts.{Lacks, all-append, all_weaken, all-Lacks, cut_last_at}
use avangard_private.Url.Parse.{parse_host, digit, bare}
use avangard_private.Url.Print.{unbracketed, hostname_port}

-- The bytes of host names and ports.
abbrev pub host_byte : ℕ → Bool
host_byte c = alphanumeric c || c == 45 || c == 46 || c == 58

pub escape_host : (s : Bytes) → all host_byte s ≡ true → escape in_host s ≡ s
unfolding all escape should_escape
escape_host [] h = refl
escape_host (c ∷ s) h =
    let kept : should_escape c in_host ≡ false = ground (arith, h) in
    let no_space : (c == 32 && is_query in_host) ≡ false = ground arith in
    rw (no_space, kept) (ap (◌∷◌ c) (escape_host s (ground (arith, h))))

plain_plus :
    (c : ℕ) (s : Bytes)
    → onto (if c == 43 && is_query in_host then 32 else c) (some s) ≡ some (c ∷ s)
plain_plus c s = elim (Bool-cases (c == 43)) [ inl y ↦ rw y refl | inr n ↦ rw n refl ]

pub unescape_host : (s : Bytes) → all host_byte s ≡ true → unescape in_host s ≡ some s
unfolding all unescape
unescape_host [] h = refl
unescape_host (c ∷ s) h =
    let kept : should_escape c in_host ≡ false = unfold should_escape in ground (arith, h) in
    let no_percent : (c == 37) ≡ false = ground (arith, h) in
    let ascii : ltb c 128 ≡ true = ground (arith, h) in
    unescape-plain in_host c s no_percent
    ∙ rw (unescape_host s (ground (arith, h)), no_percent, ascii, kept) (plain_plus c s)

digits_host : (port : Bytes) → all digit port ≡ true → all host_byte port ≡ true
digits_host port d = all_weaken digit host_byte port (λ c h. ground (arith, h)) d

digits-Lacks : (port : Bytes) → all digit port ≡ true → Lacks 58 port
digits-Lacks port d = all-Lacks digit 58 port refl d

pub host_port_bytes :
    (name port : Bytes)
    → all host_byte name ≡ true
    → all digit port ≡ true
    → all host_byte (name ++ b':' ∷ port) ≡ true
host_port_bytes name port h d =
    all-append host_byte name (b':' ∷ port) h (unfold all in digits_host port d)

bare_port :
    (name port : Bytes)
    → all host_byte name ≡ true
    → all digit port ≡ true
    → bare (name ++ b':' ∷ port) ≡ some (name ++ b':' ∷ port)
bare_port name port h d =
    rw (cut_last_at b':' name port (digits-Lacks port d), bare)
      (rw d (unescape_host (name ++ b':' ∷ port) (host_port_bytes name port h d)))

-- A host with a port of digits.
pub parse_host-port :
    (name port : Bytes)
    → all host_byte name ≡ true
    → all digit port ≡ true
    → parse_host (name ++ b':' ∷ port) ≡ some (name ++ b':' ∷ port)
unfolding parse_host
parse_host-port [] port h d = bare_port [] port h d
parse_host-port (c ∷ name) port h d =
    let no_bracket : (c == b'[') ≡ false = unfold all in ground (arith, h) in
    rw no_bracket (bare_port (c ∷ name) port h d)

unbracketed_name : (name : Bytes) → all host_byte name ≡ true → unbracketed name ≡ name
unbracketed_name [] h = refl
unbracketed_name (c ∷ s) h =
    let no_bracket : (c == b'[') ≡ false = unfold all in ground (arith, h) in
    elim (Option-cases (cut_last b']' s)) [
      | inl e ↦ rw (e, unbracketed) refl
      | inr (p, e) ↦ rw (e, unbracketed) (rw no_bracket refl)
    ]

-- `Hostname` and `Port` of it.
pub hostname_port-port :
    (name port : Bytes)
    → all host_byte name ≡ true
    → all digit port ≡ true
    → hostname_port (name ++ b':' ∷ port) ≡ (name, port)
unfolding hostname_port
hostname_port-port name port h d =
    rw (cut_last_at b':' name port (digits-Lacks port d), hostname_port)
      (rw d (ap (λ x. (x, port)) (unbracketed_name name h)))
