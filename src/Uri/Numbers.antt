-- ===== src/Uri/Numbers.antt =====
-- pkg/uri/uri.go: the port, which is written and read as a decimal number.
use avangard_private.Common.{
  ℕ, zero, suc, ◌+◌, ◌-◌, ◌*◌, ◌/◌, ◌%◌, ◌^◌, ◌<◌, ◌≡◌, ◌∙◌, refl, ap, true, false, [], ◌∷◌, Bytes,
  length, ◌==◌, ltb, some, Bool-cases, inl, inr, arith,
}
use avangard_private.Net.{decimal_onto, decimal}
use avangard_private.Net.Decimal.{IsDigits, decimal-IsDigits}
use avangard_private.Url.{all}
use avangard_private.Url.Parse.{digit}
use avangard_private.Uri.{value_from, atoi}

value_from-decimal_onto :
    (f n : ℕ) (t : Bytes) → n < f → value_from 0 (decimal_onto f n t) ≡ value_from n t
unfolding decimal_onto value_from
value_from-decimal_onto zero n t h = absurd (omega arith)
value_from-decimal_onto (suc f) n t h = elim (Bool-cases (ltb n 10)) [
  | inl y ↦
      let first : 0 + (48 + n % 10 - 48) ≡ n = ground (arith, y) in
      rw y (ap (λ x. value_from x t) first)
  | inr m ↦
      let next : n / 10 * 10 + (48 + n % 10 - 48) ≡ n = omega arith in
      rw m (
        value_from-decimal_onto f (n / 10) ((48 + n % 10) ∷ t) (ground (arith, m))
        ∙ ap (λ x. value_from x t) next)
]

IsDigits-all : (s : Bytes) → IsDigits s → all digit s ≡ true
unfolding all
IsDigits-all [] h = refl
IsDigits-all (c ∷ s) h = ground (arith, h, IsDigits-all s h.1)

pub decimal-digit : (n : ℕ) → all digit (decimal n) ≡ true
decimal-digit n = IsDigits-all (decimal n) (decimal-IsDigits n)

pub value_from-decimal : (n : ℕ) → value_from 0 (decimal n) ≡ n
unfolding decimal value_from
value_from-decimal n = value_from-decimal_onto (suc n) n [] (omega arith)

-- A number that fits a signed word is read back.
pub atoi-decimal : (n : ℕ) → n < 2 ^ 63 → atoi (decimal n) ≡ some n
unfolding atoi
atoi-decimal n h =
    let small : ltb n (2 ^ 63) ≡ true = ground (arith, h) in
    rw (decimal-digit n, value_from-decimal n, small) refl

decimal_onto-nonempty : (f n x : ℕ) (t : Bytes) → (length (decimal_onto f n (x ∷ t)) == 0) ≡ false
unfolding decimal_onto
decimal_onto-nonempty zero n x t = ground arith
decimal_onto-nonempty (suc f) n x t = elim (Bool-cases (ltb n 10)) [
  | inl y ↦ rw y (ground arith)
  | inr m ↦ rw m (decimal_onto-nonempty f (n / 10) (48 + n % 10) (x ∷ t))
]

pub decimal-nonempty : (n : ℕ) → (length (decimal n) == 0) ≡ false
unfolding decimal decimal_onto
decimal-nonempty n = elim (Bool-cases (ltb n 10)) [
  | inl y ↦ rw y (ground arith)
  | inr m ↦ rw m (decimal_onto-nonempty n (n / 10) (48 + n % 10) [])
]
