-- ===== src/Url/Escape.antt =====
-- net/url: what is escaped is read back, and which bytes an escaped text holds.
use avangard_private.Common.{
  ℕ, ◌+◌, ◌*◌, ◌/◌, ◌%◌, ◌<◌, ◌≡◌, ◌∙◌, refl, ap, Bool, true, false, ◌&&◌, [], ◌∷◌, Bytes, IsBytes,
  ◌==◌, if◌then◌else◌, some, Bool-cases, inl, inr, arith,
}
use avangard_private.Url.{
  Part, in_query, in_user, in_host, in_zone, in_path, in_fragment, is_query, is_host, should_escape,
  hex_digit, unhex, escape, onto, plain, bad_escape, all, unescape,
}

unhex-hex_digit : (n : ℕ) → n < 16 → unhex (hex_digit n) ≡ some n
unhex-hex_digit n h = ground arith

pub unescape-plain :
    (p : Part) (c : ℕ) (t : Bytes)
    → (c == 37) ≡ false
    → unescape p (c ∷ t) ≡ plain p c (unescape p t)
unfolding unescape
unescape-plain p c [] n = refl
unescape-plain p c (a ∷ []) n = refl
unescape-plain p c (a ∷ b ∷ s) n = rw n refl

bad_escape_none : (p : Part) (a b : ℕ) → is_host p ≡ false → bad_escape p a b ≡ false
bad_escape_none in_query a b h = refl
bad_escape_none in_user a b h = refl
bad_escape_none in_host a b h = absurd (cc)
bad_escape_none in_zone a b h = absurd (cc)
bad_escape_none in_path a b h = refl
bad_escape_none in_fragment a b h = refl

unescape_escaped :
    (p : Part) (n : ℕ) (t : Bytes)
    → is_host p ≡ false
    → n < 256
    → unescape p (37 ∷ hex_digit (n / 16) ∷ hex_digit (n % 16) ∷ t) ≡ onto n (unescape p t)
unfolding unescape
unescape_escaped p n t h lt =
    let same : n / 16 * 16 + n % 16 ≡ n = omega arith in
    rw (unhex-hex_digit (n / 16) (omega arith), unhex-hex_digit (n % 16) (omega arith))
      (rw (bad_escape_none p (n / 16) (n % 16) h, same) refl)

-- A byte that stays as it is.
kept-ne-percent : (p : Part) (c : ℕ) → should_escape c p ≡ false → (c == 37) ≡ false
unfolding should_escape
kept-ne-percent in_query c h = ground arith
kept-ne-percent in_user c h = ground arith
kept-ne-percent in_host c h = ground arith
kept-ne-percent in_zone c h = ground arith
kept-ne-percent in_path c h = ground arith
kept-ne-percent in_fragment c h = ground arith

kept-ne-plus : (p : Part) (c : ℕ) → should_escape c p ≡ false → (c == 43 && is_query p) ≡ false
unfolding should_escape
kept-ne-plus in_query c h = ground arith
kept-ne-plus in_user c h = ground arith
kept-ne-plus in_host c h = ground arith
kept-ne-plus in_zone c h = ground arith
kept-ne-plus in_path c h = ground arith
kept-ne-plus in_fragment c h = ground arith

unescape_kept :
    (p : Part) (c : ℕ) (t : Bytes)
    → is_host p ≡ false
    → should_escape c p ≡ false
    → unescape p (c ∷ t) ≡ onto c (unescape p t)
unescape_kept p c t h k =
    unescape-plain p c t (kept-ne-percent p c k)
    ∙ rw (kept-ne-percent p c k, h) (rw (kept-ne-plus p c k) refl)

unescape_space :
    (p : Part) (t : Bytes) → is_query p ≡ true → unescape p (43 ∷ t) ≡ onto 32 (unescape p t)
unescape_space in_query t q = unescape-plain in_query 43 t refl
unescape_space in_user t q = absurd (cc)
unescape_space in_host t q = absurd (cc)
unescape_space in_zone t q = absurd (cc)
unescape_space in_path t q = absurd (cc)
unescape_space in_fragment t q = absurd (cc)

escape_byte :
    (p : Part) (c : ℕ) (s t : Bytes)
    → is_host p ≡ false
    → c < 256
    → unescape p t ≡ some s
    → unescape p
        (if should_escape c p then 37 ∷ hex_digit (c / 16) ∷ hex_digit (c % 16) ∷ t else c ∷ t)
      ≡ some (c ∷ s)
escape_byte p c s t h lt e = elim (Bool-cases (should_escape c p)) [
  | inl y ↦ rw y (unescape_escaped p c t h lt ∙ ap (onto c) e)
  | inr n ↦ rw n (unescape_kept p c t h n ∙ ap (onto c) e)
]

-- Outside hosts, unescaping gives back every text of bytes that was escaped.
pub unescape-escape :
    (p : Part) (s : Bytes) → is_host p ≡ false → IsBytes s → unescape p (escape p s) ≡ some s
unfolding escape unescape
unescape-escape p [] h b = refl
unescape-escape p (c ∷ s) h (lt, b) =
    let rest = unescape-escape p s h b in
    elim (Bool-cases (is_query p)) [
      | inl q ↦ elim (Bool-cases (c == 32)) [
        | inl e ↦
            let space : c ≡ 32 = ground arith in
            rw (space, q) (unescape_space p (escape p s) q ∙ ap (onto 32) rest)
        | inr n ↦ rw n (escape_byte p c s (escape p s) h lt rest)
      ]
      | inr n ↦ elim (Bool-cases (c == 32)) [
        | inl e ↦ rw (e, n) (escape_byte p c s (escape p s) h lt rest)
        | inr f ↦ rw f (escape_byte p c s (escape p s) h lt rest)
      ]
    ]

-- What passes for plus, percent, the digits of escapes and the bytes that stay, passes for the whole
-- escaped text.
pub escape-all :
    (t : ℕ → Bool) (p : Part) (s : Bytes)
    → t 43 ≡ true
    → t 37 ≡ true
    → ((n : ℕ) → n < 16 → t (hex_digit n) ≡ true)
    → ((c : ℕ) → should_escape c p ≡ false → t c ≡ true)
    → IsBytes s
    → all t (escape p s) ≡ true
unfolding escape all
escape-all t p [] plus percent hex kept b = refl
escape-all t p (c ∷ s) plus percent hex kept (lt, b) =
    let rest = escape-all t p s plus percent hex kept b in
    elim (Bool-cases (c == 32 && is_query p)) [
      | inl y ↦ rw y (rw plus rest)
      | inr n ↦ rw n (elim (Bool-cases (should_escape c p)) [
        | inl y ↦ rw y (rw (percent, hex (c / 16) (omega arith), hex (c % 16) (omega arith)) rest)
        | inr k ↦ rw k (rw (kept c k) rest)
      ])
    ]
