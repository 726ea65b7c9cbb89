-- ===== src/Bitset/Digits.antt =====
-- Single bits of `|` and `&`, from the recursion on binary digits that the native operations mean.
use Prim.Native.Nat.{bit_and, bit_or, bit_and-bitwise, bit_or-bitwise, digits, min, max}
use native.Mathlib.Nat.{pow-suc}
use avangard_private.Common.{
  ℕ, zero, suc, ◌+◌, ◌*◌, ◌/◌, ◌%◌, ◌^◌, ◌≤◌, ◌≡◌, ◌∙◌, refl, ap, ◌==◌, arith, if◌then◌else◌,
}

-- The digits of a number do not depend on the fuel, once it is enough.
digits_enough :
    (z : ℕ → ℕ) (f : ℕ → ℕ → ℕ) (j k a b : ℕ) → a ≤ j → a ≤ k → digits z f j a b ≡ digits z f k a b
digits_enough z f zero zero zero b p q = refl
digits_enough z f zero (suc k) zero b p q = refl
digits_enough z f (suc j) zero zero b p q = refl
digits_enough z f (suc j) (suc k) zero b p q = refl
digits_enough z f zero k (suc a) b p q = absurd (omega arith)
digits_enough z f (suc j) zero (suc a) b p q = absurd (omega arith)
digits_enough z f (suc j) (suc k) (suc a) b p q =
    ap (λ t. t * 2 + f (suc a % 2) (b % 2))
      (digits_enough z f j k (suc a / 2) (b / 2) (omega arith) (omega arith))

bit_or-digit : (u v : ℕ) → bit_or u v ≡ max (u % 2) (v % 2) + 2 * bit_or (u / 2) (v / 2)
bit_or-digit zero b = simp bit_or-bitwise (omega arith)
bit_or-digit (suc a) b = simp bit_or-bitwise (
    omega (
      arith,
      digits_enough (λ y. y) max a (suc a / 2) (suc a / 2) (b / 2) (omega arith) (omega arith),
    ))

bit_and-digit : (u v : ℕ) → bit_and u v ≡ min (u % 2) (v % 2) + 2 * bit_and (u / 2) (v / 2)
bit_and-digit zero b = simp bit_and-bitwise (omega arith)
bit_and-digit (suc a) b = simp bit_and-bitwise (
    omega (
      arith,
      digits_enough (λ y. 0) min a (suc a / 2) (suc a / 2) (b / 2) (omega arith) (omega arith),
    ))

-- The i-th bit of a number.
unfoldable pub bit : ℕ → ℕ → ℕ
bit w zero = w % 2
bit w (suc i) = bit (w / 2) i

pow-two : (i : ℕ) → 2 ^ suc i ≡ 2 * 2 ^ i
pow-two i = omega (arith, pow-suc 2 i)

bit-zero : (i : ℕ) → bit 0 i ≡ 0
unfolding bit
bit-zero zero = refl
bit-zero (suc i) = bit-zero i

pub bit-bit_or : (i a b : ℕ) → bit (bit_or a b) i ≡ max (bit a i) (bit b i)
unfolding bit
bit-bit_or zero a b = omega (arith, bit_or-digit a b)
bit-bit_or (suc i) a b =
    ap (λ w. bit w i) (omega (arith, bit_or-digit a b)) ∙ bit-bit_or i (a / 2) (b / 2)

pub bit-pow : (i j : ℕ) → bit (2 ^ i) j ≡ (if i == j then 1 else 0)
unfolding bit
bit-pow zero zero = refl
bit-pow zero (suc j) = bit-zero j ∙ ground arith
bit-pow (suc i) zero = ground (arith, pow-two i)
bit-pow (suc i) (suc j) = ap (λ w. bit w j) (omega (arith, pow-two i)) ∙ bit-pow i j ∙ ground arith

bit_and-zero : (n w : ℕ) → w ≤ n → bit_and w 0 ≡ 0
bit_and-zero n zero h = refl
bit_and-zero zero (suc w) h = absurd (omega arith)
bit_and-zero (suc n) (suc w) h =
    omega (arith, bit_and-digit (suc w) 0, bit_and-zero n (suc w / 2) (omega arith))

half_pow : (w i : ℕ) → bit_and w (2 ^ suc i) ≡ bit_and (w / 2) (2 ^ i) * 2
half_pow w i =
    let even : 2 ^ suc i % 2 ≡ 0 = omega (arith, pow-two i) in
    let half : 2 ^ suc i / 2 ≡ 2 ^ i = omega (arith, pow-two i) in
    bit_and-digit w (2 ^ suc i) ∙ rw (half, even) (omega arith)

-- `w & (1 << i)` holds the i-th bit.
pub bit_and-pow : (i w : ℕ) → bit_and w (2 ^ i) ≡ bit w i * 2 ^ i
unfolding bit
bit_and-pow zero w = omega (arith, bit_and-digit w 1, bit_and-zero w (w / 2) (omega arith))
bit_and-pow (suc i) w = half_pow w i ∙ rw (bit_and-pow i (w / 2), pow-two i) (grind arith)
