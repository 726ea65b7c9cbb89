-- ===== src/Base64/RoundTrip.antt =====
-- encoding/base64: what was encoded is decoded again.
use avangard_private.Common.{
  ℕ, ◌+◌, ◌*◌, ◌/◌, ◌%◌, ◌<◌, ◌≡◌, refl, ap, All, true, false, ◌||◌, [], ◌∷◌, Bytes, IsBytes, ◌==◌,
  some, length, arith,
}
use avangard_private.Base64.{
  Alphabet, url_alphabet, std_alphabet, char_of, value_of, encode_raw, decode_chars,
  without_newlines, decode_raw,
}

without_newlines_visible : (s : Bytes) → All (λ c. 13 < c) s → without_newlines s ≡ s
unfolding without_newlines
without_newlines_visible [] h = refl
without_newlines_visible (c ∷ s) (p, h) =
    let kept : (c == 10 || c == 13) ≡ false = ground (arith, p) in
    rw kept (ap (◌∷◌ c) (without_newlines_visible s h))

module _ (t : Alphabet) (values : (v : ℕ) → v < 64 → value_of t (char_of t v) ≡ some v)
    (visible : (v : ℕ) → v < 64 → 13 < char_of t v) where
  decode_chars-encode_raw : (s : Bytes) → IsBytes s → decode_chars t (encode_raw t s) ≡ some s
  unfolding decode_chars encode_raw
  decode_chars-encode_raw [] h = refl
  decode_chars-encode_raw (a ∷ []) (p, h) =
      let first : a / 4 * 4 + a % 4 * 16 / 16 ≡ a = omega arith in
      rw (values (a / 4) (omega arith), values (a % 4 * 16) (omega arith)) (rw first refl)
  decode_chars-encode_raw (a ∷ b ∷ []) (p, (q, h)) =
      let first : a / 4 * 4 + (a % 4 * 16 + b / 16) / 16 ≡ a = omega arith in
      let second : (a % 4 * 16 + b / 16) % 16 * 16 + b % 16 * 4 / 4 ≡ b = omega arith in
      rw
        (
          values (a / 4) (omega arith),
          values (a % 4 * 16 + b / 16) (omega arith),
          values (b % 16 * 4) (omega arith),
        )
        (rw (first, second) refl)
  decode_chars-encode_raw (a ∷ b ∷ c ∷ s) (p, (q, (r, h))) =
      let first : a / 4 * 4 + (a % 4 * 16 + b / 16) / 16 ≡ a = omega arith in
      let second : (a % 4 * 16 + b / 16) % 16 * 16 + (b % 16 * 4 + c / 64) / 4 ≡ b = omega arith in
      let third : (b % 16 * 4 + c / 64) % 4 * 64 + c % 64 ≡ c = omega arith in
      rw
        (
          values (a / 4) (omega arith),
          values (a % 4 * 16 + b / 16) (omega arith),
          values (b % 16 * 4 + c / 64) (omega arith),
          values (c % 64) (omega arith),
          decode_chars-encode_raw s h,
        )
        (rw (first, second, third) refl)

  encode_raw_visible : (s : Bytes) → IsBytes s → All (λ c. 13 < c) (encode_raw t s)
  unfolding encode_raw
  encode_raw_visible [] h = tt
  encode_raw_visible (a ∷ []) (p, h) =
      (visible (a / 4) (omega arith), (visible (a % 4 * 16) (omega arith), tt))
  encode_raw_visible (a ∷ b ∷ []) (p, (q, h)) = (
    visible (a / 4) (omega arith),
    (visible (a % 4 * 16 + b / 16) (omega arith), (visible (b % 16 * 4) (omega arith), tt)),
  )
  encode_raw_visible (a ∷ b ∷ c ∷ s) (p, (q, (r, h))) = (
    visible (a / 4) (omega arith),
    (
      visible (a % 4 * 16 + b / 16) (omega arith),
      (
        visible (b % 16 * 4 + c / 64) (omega arith),
        (visible (c % 64) (omega arith), encode_raw_visible s h),
      ),
    ),
  )

  decode_raw-encode_raw : (s : Bytes) → IsBytes s → decode_raw t (encode_raw t s) ≡ some s
  unfolding decode_raw
  decode_raw-encode_raw s h =
      rw (without_newlines_visible (encode_raw t s) (encode_raw_visible s h))
        (decode_chars-encode_raw s h)

-- Bytes that were encoded with the URL alphabet are decoded again.
pub decode_raw_url :
    (s : Bytes) → IsBytes s → decode_raw url_alphabet (encode_raw url_alphabet s) ≡ some s
decode_raw_url s h =
    decode_raw-encode_raw url_alphabet
      (λ v k. unfold value_of in unfold char_of in ground (arith, k))
      (λ v k. unfold char_of in ground (arith, k)) s h

-- And so are those encoded with the standard one.
pub decode_raw_std :
    (s : Bytes) → IsBytes s → decode_raw std_alphabet (encode_raw std_alphabet s) ≡ some s
decode_raw_std s h =
    decode_raw-encode_raw std_alphabet
      (λ v k. unfold value_of in unfold char_of in ground (arith, k))
      (λ v k. unfold char_of in ground (arith, k)) s h

char_of-lt : (v : ℕ) → v < 64 → char_of url_alphabet v < 256
unfolding char_of
char_of-lt v h = ground (arith, h)

pub encode_raw-IsBytes : (s : Bytes) → IsBytes s → IsBytes (encode_raw url_alphabet s)
unfolding encode_raw
encode_raw-IsBytes [] h = tt
encode_raw-IsBytes (a ∷ []) (p, h) =
    (char_of-lt (a / 4) (omega arith), (char_of-lt (a % 4 * 16) (omega arith), tt))
encode_raw-IsBytes (a ∷ b ∷ []) (p, (q, h)) = (
  char_of-lt (a / 4) (omega arith),
  (char_of-lt (a % 4 * 16 + b / 16) (omega arith), (char_of-lt (b % 16 * 4) (omega arith), tt)),
)
encode_raw-IsBytes (a ∷ b ∷ c ∷ s) (p, (q, (r, h))) = (
  char_of-lt (a / 4) (omega arith),
  (
    char_of-lt (a % 4 * 16 + b / 16) (omega arith),
    (
      char_of-lt (b % 16 * 4 + c / 64) (omega arith),
      (char_of-lt (c % 64) (omega arith), encode_raw-IsBytes s h),
    ),
  ),
)

pub encode_raw-nonempty :
    (t : Alphabet) (s : Bytes) → (length s == 32) ≡ true → (length (encode_raw t s) == 0) ≡ false
unfolding encode_raw
encode_raw-nonempty t [] h = absurd (ground (arith, h))
encode_raw-nonempty t (a ∷ []) h = ground arith
encode_raw-nonempty t (a ∷ b ∷ []) h = ground arith
encode_raw-nonempty t (a ∷ b ∷ c ∷ s) h = ground arith
