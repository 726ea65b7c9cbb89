-- ===== src/Bitset/Laws.antt =====
-- The packed words as a set of positions: `set_bit` adds one, and the loops add and find all of an
-- item's positions.
use native.Mathlib.Nat.{one-le-pow}
use Prim.Native.Nat.{bit_and, bit_or}
use avangard_private.Common.{
  ℕ, zero, suc, ◌+◌, ◌*◌, ◌/◌, ◌%◌, ◌^◌, ◌≤◌, ◌<◌, ◌≡◌, ◌∙◌, refl, true, false, not, ◌||◌, ◌==◌,
  arith, if◌then◌else◌, [], ◌∷◌, length, get_or, set, length-set, replicate, length-replicate,
}
use avangard_private.Bitset.{
  Words, test_bit, set_bit, set_rounds, test_rounds, make_words, round_up,
}
use avangard_private.Bitset.Digits.{bit, bit-bit_or, bit-pow, bit_and-pow}

get_or-set :
    (xs : Words) (i j v d : ℕ)
    → i < length xs
    → get_or (set xs i v) j d ≡ (if i == j then v else get_or xs j d)
get_or-set [] i j v d h = absurd (omega arith)
get_or-set (x ∷ xs) zero zero v d h = refl
get_or-set (x ∷ xs) zero (suc j) v d h = ground arith
get_or-set (x ∷ xs) (suc i) zero v d h = ground arith
get_or-set (x ∷ xs) (suc i) (suc j) v d h = get_or-set xs i j v d (omega arith) ∙ ground arith

le-mul : (b p : ℕ) → 1 ≤ p → b ≤ b * p
le-mul b p h = grind arith

zero_test : (a b p : ℕ) → a ≡ b * p → 1 ≤ p → not (a == 0) ≡ not (b == 0)
zero_test a zero p e h = ground arith
zero_test a (suc b) p e h = ground (arith, le-mul (suc b) p h)

test_bit-bit :
    (bits : Words) (i : ℕ) → test_bit bits i ≡ not (bit (get_or bits (i / 64) 0) (i % 64) == 0)
unfolding test_bit
test_bit-bit bits i =
    zero_test (bit_and (get_or bits (i / 64) 0) (2 ^ (i % 64)))
      (bit (get_or bits (i / 64) 0) (i % 64)) (2 ^ (i % 64))
      (bit_and-pow (i % 64) (get_or bits (i / 64) 0)) (one-le-pow (i % 64) 2 (omega arith))

-- After `set_bit` exactly one more position is in the set.
test_bit-set_bit :
    (bits : Words) (i j : ℕ)
    → i < length bits * 64
    → test_bit (set_bit bits i) j ≡ (i == j || test_bit bits j)
unfolding set_bit
test_bit-set_bit bits i j h =
    let w = get_or bits (i / 64) 0 in
    let p = 2 ^ (i % 64) in
    test_bit-bit (set_bit bits i) j
    ∙ ground (
      arith,
      test_bit-bit bits j,
      get_or-set bits (i / 64) (j / 64) (bit_or w p) 0 (omega arith),
      bit-bit_or (j % 64) w p,
      bit-pow (i % 64) (j % 64),
    )

length-set_bit : (bits : Words) (i : ℕ) → length (set_bit bits i) ≡ length bits
unfolding set_bit
length-set_bit bits i = length-set bits (i / 64) _

pub length-set_rounds :
    (idx : ℕ → ℕ) (r i : ℕ) (bits : Words) → length (set_rounds idx r i bits) ≡ length bits
unfolding set_rounds
length-set_rounds idx zero i bits = refl
length-set_rounds idx (suc r) i bits =
    length-set_rounds idx r (i + 1) (set_bit bits (idx i)) ∙ length-set_bit bits (idx i)

-- Every position of an item lies within the words.
abbrev pub Fits : (ℕ → ℕ) → Words → Type 0
Fits idx bits = (i : ℕ) → idx i < length bits * 64

Fits-set_bit : (idx : ℕ → ℕ) (bits : Words) (j : ℕ) → Fits idx bits → Fits idx (set_bit bits j)
Fits-set_bit idx bits j f i = rw (length-set_bit bits j) (f i)

-- Adding an item takes no position out.
test_bit-set_rounds :
    (idx : ℕ → ℕ) (r i : ℕ) (bits : Words) (j : ℕ)
    → Fits idx bits
    → test_bit bits j ≡ true
    → test_bit (set_rounds idx r i bits) j ≡ true
unfolding set_rounds
test_bit-set_rounds idx zero i bits j f h = h
test_bit-set_rounds idx (suc r) i bits j f h =
    test_bit-set_rounds idx r (i + 1) (set_bit bits (idx i)) j (Fits-set_bit idx bits (idx i) f)
      (ground (arith, test_bit-set_bit bits (idx i) j (f i)))

-- An item that is found is found in every larger set.
test_rounds_mono :
    (idx : ℕ → ℕ) (r i : ℕ) (bits more : Words)
    → ((j : ℕ) → test_bit bits j ≡ true → test_bit more j ≡ true)
    → test_rounds idx r i bits ≡ true
    → test_rounds idx r i more ≡ true
unfolding test_rounds
test_rounds_mono idx zero i bits more s h = refl
test_rounds_mono idx (suc r) i bits more s h =
    ground (arith, s (idx i), test_rounds_mono idx r (i + 1) bits more s)

-- Adding one item loses no other.
pub test_rounds-set_rounds_mono :
    (idx idx' : ℕ → ℕ) (r r' : ℕ) (bits : Words)
    → Fits idx' bits
    → test_rounds idx r 0 bits ≡ true
    → test_rounds idx r 0 (set_rounds idx' r' 0 bits) ≡ true
test_rounds-set_rounds_mono idx idx' r r' bits f h =
    test_rounds_mono idx r 0 bits (set_rounds idx' r' 0 bits)
      (λ j t. test_bit-set_rounds idx' r' 0 bits j f t) h

-- An item is found once it is added.
pub test_rounds-set_rounds :
    (idx : ℕ → ℕ) (r i : ℕ) (bits : Words)
    → Fits idx bits
    → test_rounds idx r i (set_rounds idx r i bits) ≡ true
unfolding set_rounds test_rounds
test_rounds-set_rounds idx zero i bits f = refl
test_rounds-set_rounds idx (suc r) i bits f =
    let b = set_bit bits (idx i) in
    let g = Fits-set_bit idx bits (idx i) f in
    let first =
      test_bit-set_rounds idx r (i + 1) b (idx i) g
        (ground (arith, test_bit-set_bit bits (idx i) (idx i) (f i))) in
    ground (arith, first, test_rounds-set_rounds idx r (i + 1) b g)

pub length-make_words : (m : ℕ) → m % 64 ≡ 0 → length (make_words m) * 64 ≡ m
length-make_words m h = omega (arith, length-replicate {A = ℕ} (m / 64) 0)

-- A size that is not within 64 of the limit of a word is rounded up to the next multiple of 64.
pub round_up_lem :
    (m : ℕ) → m + 63 < 2 ^ 64 → (round_up m % 64 ≡ 0) × (m ≤ round_up m) × (round_up m < m + 64)
unfolding round_up
round_up_lem m h = ground arith

replicate-get_or : (n i : ℕ) → get_or {A = ℕ} (replicate n 0) i 0 ≡ 0
replicate-get_or zero i = refl
replicate-get_or (suc n) zero = refl
replicate-get_or (suc n) (suc i) = replicate-get_or n i

bit-zero : (i : ℕ) → bit 0 i ≡ 0
unfolding bit
bit-zero zero = refl
bit-zero (suc i) = bit-zero i

test_bit-make_words : (m j : ℕ) → test_bit (make_words m) j ≡ false
test_bit-make_words m j =
    ground
      (arith, test_bit-bit (make_words m) j, replicate-get_or (m / 64) (j / 64), bit-zero (j % 64))

-- No item with a position is found in an empty set.
pub test_rounds-make_words :
    (idx : ℕ → ℕ) (r i m : ℕ) → test_rounds idx (suc r) i (make_words m) ≡ false
unfolding test_rounds
test_rounds-make_words idx r i m = rw (test_bit-make_words m (idx i))
