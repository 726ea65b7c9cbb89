-- ===== src/Common/Results.antt =====
-- Results of fallible calls, and decoders that read from a byte stream.
use Prim.Native.Nat.{ℕ, zero, suc, ◌<◌}
use mathlib.Core.Path.{◌≡◌, refl}
use mathlib.Core.Logic.{◌⊎◌, inl, inr}
use mathlib.Core.Bool.{Bool, true, false}
use mathlib.Core.List.{[], ◌∷◌, ◌++◌}
use mathlib.Core.Option.{Option, none, some}
use native.Mathlib.Omega.{arith}
use avangard_private.Common.Tests.{Option-cases}
use avangard_private.Common.Lists.{length, Bytes}

pub data Result {ℓ κ} (E : Type ℓ) (A : Type κ) : Type (ℓ ⊔ κ) where
  ok : A → Result E A
  err : E → Result E A

infixl 5 ◌>>=◌ ◌>>◌
abbrev pub ◌>>=◌ {ℓ κ η} :
    {E : Type ℓ} {A : Type κ} {B : Type η} → Result E A → (A → Result E B) → Result E B
ok a >>= f = f a
err e >>= f = err e

abbrev pub ◌>>◌ {ℓ κ} : {E : Type ℓ} {B : Type κ} → Result E (Unit {0}) → Result E B → Result E B
m >> k = m >>= λ _. k

-- `if !c { return e }`
abbrev pub guard {ℓ} : {E : Type ℓ} → Bool → E → Result E (Unit {0})
guard true e = ok tt
guard false e = err e

abbrev pub or_fail {ℓ κ} : {E : Type ℓ} {A : Type κ} → Option A → E → Result E A
or_fail none e = err e
or_fail (some a) e = ok a

pub Result-cases {ℓ κ} :
    {E : Type ℓ} {A : Type κ} (m : Result E A) → ((a : A) × (m ≡ ok a)) ⊎ ((e : E) × (m ≡ err e))
Result-cases (ok a) = inl (a, refl)
Result-cases (err e) = inr (e, refl)

-- `io.ReadFull` on the bytes that the peer still sends before it closes: the next `n` bytes and the
-- bytes behind them, or nothing if the stream ends before.
unfoldable pub read_full : ℕ → Bytes → Option (Bytes × Bytes)
read_full zero s = some ([], s)
read_full (suc n) [] = none
read_full (suc n) (b ∷ s) = elim (read_full n s) [
  | none ↦ none
  | some (xs, rest) ↦ some (b ∷ xs, rest)
]

pub read_full-append : (xs rest : Bytes) → read_full (length xs) (xs ++ rest) ≡ some (xs, rest)
unfolding read_full
read_full-append [] rest = refl
read_full-append (x ∷ xs) rest = rw (read_full-append xs rest)

pub read_full_at :
    (n : ℕ) (xs rest : Bytes) → length xs ≡ n → read_full n (xs ++ rest) ≡ some (xs, rest)
read_full_at n xs rest h = rw (← h) (read_full-append xs rest)

pub read_full_sound :
    (n : ℕ) (s xs rest : Bytes)
    → read_full n s ≡ some (xs, rest)
    → (s ≡ xs ++ rest) × (length xs ≡ n)
unfolding read_full
read_full_sound zero s xs rest h = ground arith
read_full_sound (suc n) [] xs rest h = cc
read_full_sound (suc n) (b ∷ s) xs rest h = elim (Option-cases (read_full n s)) [
  | inl e ↦ absurd (ground arith)
  | inr (p, e) ↦ ground (arith, read_full_sound n s p.0 p.1)
]

pub read_full_short : (n : ℕ) (s : Bytes) → length s < n → read_full n s ≡ none
unfolding read_full
read_full_short zero s h = absurd (omega arith)
read_full_short (suc n) [] h = refl
read_full_short (suc n) (b ∷ s) h = rw (read_full_short n s (omega arith))

pub or_fail-eq-ok {ℓ κ} :
    {E : Type ℓ} {A : Type κ} (o : Option A) (e : E) (a : A) → or_fail o e ≡ ok a → o ≡ some a
or_fail-eq-ok none e a h = cc
or_fail-eq-ok (some x) e a h = cc

pub read_full-none : (n : ℕ) (s : Bytes) → read_full n s ≡ none → length s < n
unfolding read_full
read_full-none zero s h = cc
read_full-none (suc n) [] h = omega arith
read_full-none (suc n) (b ∷ s) h = elim (Option-cases (read_full n s)) [
  | inl e ↦ omega (arith, read_full-none n s e)
  | inr (p, e) ↦ absurd (ground arith)
]
