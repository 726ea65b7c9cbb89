-- ===== src/Net/Decimal.antt =====
-- Decimal numbers hold digits only.
use avangard_private.Common.{
  ℕ, zero, suc, ◌/◌, ◌<◌, ◌≤◌, ◌≡◌, refl, false, [], ◌∷◌, Bytes, All, ltb, arith, Bool-cases, inl,
  inr,
}
use avangard_private.Net.{contains, decimal_onto, decimal}
use avangard_private.Net.HostPort.{IsClean}

abbrev pub IsDigits : Bytes → Type 0
IsDigits = All (λ c. (48 ≤ c) × (c ≤ 57))

decimal_onto-IsDigits : (f n : ℕ) (acc : Bytes) → IsDigits acc → IsDigits (decimal_onto f n acc)
unfolding decimal_onto
decimal_onto-IsDigits zero n acc h = h
decimal_onto-IsDigits (suc f) n acc h = elim (Bool-cases (ltb n 10)) [
  | inl e ↦ rw e ((omega arith, omega arith), h)
  | inr e ↦ rw e (decimal_onto-IsDigits f (n / 10) _ ((omega arith, omega arith), h))
]

pub decimal-IsDigits : (n : ℕ) → IsDigits (decimal n)
unfolding decimal
decimal-IsDigits n = decimal_onto-IsDigits (suc n) n [] tt

IsDigits-contains : (c : ℕ) (s : Bytes) → 57 < c → IsDigits s → contains c s ≡ false
unfolding contains
IsDigits-contains c [] h d = refl
IsDigits-contains c (x ∷ s) h d = ground (arith, IsDigits-contains c s h d.1)

pub decimal-no_colon : (n : ℕ) → contains b':' (decimal n) ≡ false
decimal-no_colon n = IsDigits-contains b':' (decimal n) (omega arith) (decimal-IsDigits n)

pub decimal-IsClean : (n : ℕ) → IsClean (decimal n)
decimal-IsClean n = record {
  no_open = IsDigits-contains b'[' (decimal n) (omega arith) (decimal-IsDigits n);
  no_close = IsDigits-contains b']' (decimal n) (omega arith) (decimal-IsDigits n);
}
