-- ===== src/Autoprobe/Digits.antt =====
-- pkg/autoprobe/probe.go, `itoa`: which numbers it writes, and as what.
use native.Mathlib.Nat.{pow-suc, one-le-pow}
use avangard_private.Common.{
  ℕ, zero, suc, ◌+◌, ◌-◌, ◌/◌, ◌%◌, ◌^◌, ◌<◌, ◌≤◌, ◌≡◌, ◌∙◌, refl, false, [], ◌∷◌, Bytes, ltb, ◌==◌,
  if◌then◌else◌, none, some, arith, Bool-cases, inl, inr,
}
use avangard_private.Net.{decimal_onto, decimal}
use avangard_private.Autoprobe.{itoa_loop, itoa}

-- Fuel beyond a number changes nothing of its decimal digits.
decimal_onto_fuel :
    (f g n : ℕ) (acc : Bytes) → n < f → n < g → decimal_onto f n acc ≡ decimal_onto g n acc
unfolding decimal_onto
decimal_onto_fuel zero g n acc p q = absurd (omega arith)
decimal_onto_fuel (suc f) zero n acc p q = absurd (omega arith)
decimal_onto_fuel (suc f) (suc g) n acc p q = elim (Bool-cases (ltb n 10)) [
  | inl e ↦ rw e
  | inr e ↦
      rw e (decimal_onto_fuel f g (n / 10) ((48 + n % 10) ∷ acc) (ground arith) (ground arith))
]

itoa_loop_done : (f room : ℕ) (acc : Bytes) → 0 < f → itoa_loop f room 0 acc ≡ some acc
unfolding itoa_loop
itoa_loop_done zero room acc h = absurd (omega arith)
itoa_loop_done (suc f) room acc h = refl

itoa_loop_step :
    (f room n : ℕ) (acc : Bytes)
    → 0 < n
    → itoa_loop (suc f) (suc room) n acc ≡ itoa_loop f room (n / 10) ((48 + n % 10) ∷ acc)
unfolding itoa_loop
itoa_loop_step f room n acc h =
    let some_left : (n == 0) ≡ false = ground arith in
    let less : suc room - 1 ≡ room = omega arith in
    let free : (suc room == 0) ≡ false = ground arith in
    rw (some_left, itoa_loop) (rw free (rw less))

-- While there is room for the digits, the loop writes them.
itoa_loop-decimal_onto :
    (f room n : ℕ) (acc : Bytes)
    → 0 < n
    → n < f
    → n < 10 ^ room
    → itoa_loop f room n acc ≡ some (decimal_onto f n acc)
unfolding decimal_onto
itoa_loop-decimal_onto zero room n acc p q r = absurd (omega arith)
itoa_loop-decimal_onto (suc f) zero n acc p q r = absurd (omega arith)
itoa_loop-decimal_onto (suc f) (suc room) n acc p q r = elim (Bool-cases (ltb n 10)) [
  | inl e ↦
      let last : n / 10 ≡ 0 = ground arith in
      itoa_loop_step f room n acc p
      ∙ rw (e, last) (itoa_loop_done f room ((48 + n % 10) ∷ acc) (omega arith))
  | inr e ↦
      itoa_loop_step f room n acc p
      ∙ rw e (
          itoa_loop-decimal_onto f room (n / 10) ((48 + n % 10) ∷ acc) (ground arith) (ground arith)
            (omega (arith, pow-suc 10 room)))
]

itoa_loop_full :
    (f room n : ℕ) (acc : Bytes) → n < f → 10 ^ room ≤ n → itoa_loop f room n acc ≡ none
itoa_loop_full zero room n acc q r = absurd (omega arith)
itoa_loop_full (suc f) zero n acc q r =
    let some_left : (n == 0) ≡ false = ground arith in unfold itoa_loop in rw (some_left, itoa_loop)
itoa_loop_full (suc f) (suc room) n acc q r =
    let long : 0 < n = omega (arith, pow-suc 10 room, one-le-pow room 10 (omega arith)) in
    itoa_loop_step f room n acc long
    ∙ itoa_loop_full f room (n / 10) ((48 + n % 10) ∷ acc) (omega arith)
        (omega (arith, pow-suc 10 room))

-- `itoa` writes the decimal digits of every number with at most ten of them, all ports among them,
-- and panics on every larger one.
pub itoa-decimal : (n : ℕ) → itoa n ≡ (if ltb n (10 ^ 10) then some (decimal n) else none)
unfolding itoa
itoa-decimal n = elim (Bool-cases (n == 0)) [
  | inl z ↦ let e : n ≡ 0 = ground arith in rw e (unfold decimal in refl)
  | inr z ↦ elim (Bool-cases (ltb n (10 ^ 10))) [
    | inl s ↦
        rw (z, s)
          (unfold decimal in
            itoa_loop-decimal_onto (suc n) 10 n [] (ground arith) (omega arith) (ground arith))
    | inr s ↦ rw (z, s) (itoa_loop_full (suc n) 10 n [] (omega arith) (ground arith))
  ]
]
