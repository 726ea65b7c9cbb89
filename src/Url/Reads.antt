-- ===== src/Url/Reads.antt =====
-- net/url: `Parse` reads back what `URL.String` wrote.
use mathlib.Core.List.{append-nil}
use avangard_private.Common.{
  ℕ, ◌<◌, ◌≡◌, ◌∙◌, refl, ap, sym, Bool, true, false, not, ◌&&◌, [], ◌∷◌, ◌++◌, Bytes, IsBytes,
  length, ◌==◌, if◌then◌else◌, some, Bool-cases, inl, inr, codes, arith,
}
use avangard_private.Url.{
  Part, in_user, in_fragment, should_escape, hex_digit, all, escape, unescape, cut_or_all, is_query,
}
use avangard_private.Url.Escape.{unescape-escape, escape-all}
use avangard_private.Url.Cuts.{
  Lacks, all-append, all_weaken, all-Lacks, cut_or_all-Lacks, cut_or_all_at, cut_last_at, cut-Lacks,
}
use avangard_private.Url.Parse.{
  Url, get_scheme, scheme_rest, to_lower, valid_user, no_control, parse_user, parse_authority,
  parse_rest, parse_main, parse_url, digit, with_fragment,
}
use avangard_private.Url.Print.{behind, to_string}
use avangard_private.Url.Query.{query_byte}
use avangard_private.Url.Hosts.{host_byte, escape_host, host_port_bytes, parse_host-port}

-- What stands in an escaped user name.
abbrev user_byte : ℕ → Bool
user_byte c =
    valid_user c
    && no_control c
    && not (c == 35)
    && not (c == 63)
    && not (c == 47)
    && not (c == 58)
    && not (c == 64)

kept-user_byte : (c : ℕ) → should_escape c in_user ≡ false → user_byte c ≡ true
unfolding should_escape
kept-user_byte c h = ground (arith, h)

hex_digit-user_byte : (n : ℕ) → n < 16 → user_byte (hex_digit n) ≡ true
hex_digit-user_byte n h = ground (arith, h)

escape-user_byte : (s : Bytes) → IsBytes s → all user_byte (escape in_user s) ≡ true
escape-user_byte s b = escape-all user_byte in_user s refl refl hex_digit-user_byte kept-user_byte b

user-Lacks : (x : ℕ) (s : Bytes) → user_byte x ≡ false → IsBytes s → Lacks x (escape in_user s)
user-Lacks x s h b = all-Lacks user_byte x (escape in_user s) h (escape-user_byte s b)

-- A text, and one behind it that begins with `c` if it is not empty.
cut_or_all-behind : (c : ℕ) (s t : Bytes) → Lacks c s → cut_or_all c (s ++ behind c t) ≡ (s, t)
cut_or_all-behind c s [] h = ap (cut_or_all c) (append-nil s) ∙ cut_or_all-Lacks c s h
cut_or_all-behind c s (x ∷ t) h =
    let some_text : (length (x ∷ t) == 0) ≡ false = ground arith in
    rw some_text (cut_or_all_at c s (x ∷ t) h)

parse_user-escape : (u : Bytes) → IsBytes u → parse_user (escape in_user u) ≡ some u
unfolding parse_user
parse_user-escape u b =
    rw (cut-Lacks b':' (escape in_user u) (user-Lacks b':' u refl b), parse_user)
      (unescape-escape in_user u refl b)

-- The authority: a user and a host with a port.
parse_authority-user :
    (u name port : Bytes)
    → IsBytes u
    → all host_byte name ≡ true
    → all digit port ≡ true
    → let host = name ++ b':' ∷ port in
      parse_authority (escape in_user u ++ (b'@' ∷ host)) ≡ some (some u, host)
unfolding parse_authority
parse_authority-user u name port b h d =
    let host = name ++ b':' ∷ port in
    let valid : all valid_user (escape in_user u) ≡ true =
      all_weaken user_byte valid_user (escape in_user u) (λ c k. ground (arith, k))
        (escape-user_byte u b) in
    rw
      (
        cut_last_at b'@' (escape in_user u) host
            (all-Lacks host_byte b'@' host refl (host_port_bytes name port h d)),
        parse_authority,
      )
      (rw (valid, parse_user-escape u b, parse_host-port name port h d) refl)

abbrev Starts : Bytes → Type 0
Starts s = (x : ℕ) × (t : Bytes) × (s ≡ x ∷ t)

if-Starts : (b : Bool) (s t : Bytes) → Starts s → Starts t → Starts (if b then s else t)
if-Starts true s t h k = h
if-Starts false s t h k = k

escape-Starts : (p : Part) (c : ℕ) (s : Bytes) → Starts (escape p (c ∷ s))
unfolding escape
escape-Starts p c s =
    if-Starts (c == 32 && is_query p) _ _ (_, _, refl)
      (if-Starts (should_escape c p) _ _ (_, _, refl) (_, _, refl))

with_fragment-some :
    (url : Url) (f g : Bytes) (x : ℕ) (t : Bytes)
    → g ≡ x ∷ t
    → unescape in_fragment g ≡ some f
    → with_fragment g (some url) ≡ some (record url { fragment = f })
with_fragment-some url f g x t e h =
    let h' : unescape in_fragment (x ∷ t) ≡ some f = ap (unescape in_fragment) (sym e) ∙ h in
    ap (λ z. with_fragment z (some url)) e ∙ rw (h', with_fragment) refl

with_fragment-escape :
    (url : Url) (f : Bytes)
    → IsBytes f
    → with_fragment (escape in_fragment f) (some (record url { fragment = [] }))
      ≡ some (record url { fragment = f })
unfolding escape
with_fragment-escape url [] b = refl
with_fragment-escape url (c ∷ f) b =
    let (x, t, e) = escape-Starts in_fragment c f in
    with_fragment-some (record url { fragment = [] }) (c ∷ f) (escape in_fragment (c ∷ f)) x t e
      (unescape-escape in_fragment (c ∷ f) refl b)

module _ (u name port : Bytes) (b : IsBytes u) (h : all host_byte name ≡ true)
    (d : all digit port ≡ true) where
  abbrev host : Bytes
  host = name ++ b':' ∷ port

  -- The authority that is written.
  abbrev written : Bytes
  written = escape in_user u ++ (b'@' ∷ host)

  host_ok : all host_byte host ≡ true
  host_ok = host_port_bytes name port h d

  written-all :
      (t : ℕ → Bool)
      → t b'@' ≡ true
      → ((c : ℕ) → user_byte c ≡ true → t c ≡ true)
      → ((c : ℕ) → host_byte c ≡ true → t c ≡ true)
      → all t written ≡ true
  unfolding all
  written-all t at_sign in_name in_host_name =
      all-append t (escape in_user u) (b'@' ∷ host)
        (all_weaken user_byte t (escape in_user u) in_name (escape-user_byte u b))
        (rw at_sign (all_weaken host_byte t host in_host_name host_ok))

  abbrev url : Bytes → Bytes → Url
  url q f = record {
    scheme = codes "avangard";
    user = some u;
    host = host;
    raw_query = q;
    fragment = f;
  }

  parse_rest-written :
      (q : Bytes) → parse_rest (codes "avangard") q (b'/' ∷ b'/' ∷ written) ≡ some (url q [])
  unfolding parse_rest unescape
  parse_rest-written q =
      let no_slash : Lacks b'/' written =
        written-all (λ c. not (c == b'/')) refl (λ c k. ground (arith, k))
          (λ c k. ground (arith, k)) in
      rw (cut-Lacks b'/' written no_slash) (rw (parse_authority-user u name port b h d) refl)

  module _ (q : Bytes) (k : all query_byte q ≡ true) where
    abbrev pub front : Bytes
    front = codes "avangard" ++ (b':' ∷ b'/' ∷ b'/' ∷ written)

    pub front-all :
        (t : ℕ → Bool)
        → all t (codes "avangard://") ≡ true
        → t b'@' ≡ true
        → ((c : ℕ) → user_byte c ≡ true → t c ≡ true)
        → ((c : ℕ) → host_byte c ≡ true → t c ≡ true)
        → all t front ≡ true
    front-all t scheme_ok at_sign in_name in_host_name =
        all-append t (codes "avangard://") written scheme_ok
          (written-all t at_sign in_name in_host_name)

    behind-all :
        (t : ℕ → Bool)
        → t b'?' ≡ true
        → ((c : ℕ) → query_byte c ≡ true → t c ≡ true)
        → all t (behind b'?' q) ≡ true
    unfolding all
    behind-all t mark_ok in_q = elim (Bool-cases (length q == 0)) [
      | inl y ↦ rw y refl
      | inr n ↦ rw n (rw mark_ok (all_weaken query_byte t q in_q k))
    ]

    parse_main_written : parse_main (front ++ behind b'?' q) ≡ some (url q [])
    unfolding parse_main get_scheme scheme_rest to_lower
    parse_main_written =
        let printable : all no_control (front ++ behind b'?' q) ≡ true =
          all-append no_control front (behind b'?' q)
            (front-all no_control (unfold all in refl) refl (λ c k. ground (arith, k))
              (λ c k. ground (arith, k)))
            (behind-all no_control refl (λ c k. ground (arith, k))) in
        let no_mark : Lacks b'?' (b'/' ∷ b'/' ∷ written) =
          unfold all in
          written-all (λ c. not (c == b'?')) refl (λ c k. ground (arith, k))
            (λ c k. ground (arith, k)) in
        rw (printable, cut_or_all-behind b'?' (b'/' ∷ b'/' ∷ written) q no_mark)
          (parse_rest-written q)

    no_hash : Lacks b'#' (front ++ behind b'?' q)
    no_hash =
        all-append (λ c. not (c == b'#')) front (behind b'?' q)
          (front-all (λ c. not (c == b'#')) (unfold all in refl) refl (λ c k. ground (arith, k))
            (λ c k. ground (arith, k)))
          (behind-all (λ c. not (c == b'#')) refl (λ c k. ground (arith, k)))

    -- `Parse` gives back the parts that `String` put together: a user name of bytes, a host of letters,
    -- digits, dots and dashes with a port, an encoded query, and a fragment of bytes.
    pub parse_url-to_string :
        (f : Bytes)
        → IsBytes f
        → parse_url (to_string (codes "avangard") u host q f) ≡ some (url q f)
    unfolding parse_url to_string
    parse_url-to_string f bf = rw (escape_host host host_ok) (
        rw (cut_or_all-behind b'#' (front ++ behind b'?' q) (escape in_fragment f) no_hash)
          (rw parse_main_written (with_fragment-escape (url q []) f bf)))
