-- ===== src/Bitset.antt =====
-- Bits packed into 64-bit words, as pkg/replay/bloom.go and pkg/blocklist/rkn.go keep them in `bits
-- []uint64`: `idx >> 6` is the word and `idx & 63` the bit in it. Both packages set, and test, the k
-- positions of an item in a loop.
mod Digits
pub mod Laws
use Prim.Native.Nat.{bit_and, bit_or}
use avangard_private.Common.{
  ℕ, zero, suc, ◌+◌, ◌-◌, ◌/◌, ◌%◌, ◌^◌, Bool, true, false, not, List, ◌==◌, if◌then◌else◌, get_or,
  set, replicate,
}

abbrev pub Words : Type 0
Words = List ℕ

abbrev pub word_bits : ℕ
word_bits = 64

-- `bits[idx>>6]&(1<<(idx&63)) != 0`
unfoldable pub test_bit : Words → ℕ → Bool
test_bit bits idx = not (bit_and (get_or bits (idx / word_bits) 0) (2 ^ (idx % word_bits)) == 0)

-- `bits[idx>>6] |= 1 << (idx & 63)`
unfoldable pub set_bit : Words → ℕ → Words
set_bit bits idx =
    set bits (idx / word_bits) (bit_or (get_or bits (idx / word_bits) 0) (2 ^ (idx % word_bits)))

-- The loops over i with `rounds` rounds left; the i-th position is `idx i`.
unfoldable pub set_rounds : (ℕ → ℕ) → ℕ → ℕ → Words → Words
set_rounds idx zero i bits = bits
set_rounds idx (suc rounds) i bits = set_rounds idx rounds (i + 1) (set_bit bits (idx i))

unfoldable pub test_rounds : (ℕ → ℕ) → ℕ → ℕ → Words → Bool
test_rounds idx zero i bits = true
test_rounds idx (suc rounds) i bits =
    let rest = test_rounds idx rounds (i + 1) bits in if test_bit bits (idx i) then rest else false

-- `make([]uint64, m/64)`
abbrev pub make_words : ℕ → Words
make_words m = replicate (m / word_bits) 0

-- `m` rounded up to a multiple of 64, on a uint64.
unfoldable pub round_up : ℕ → ℕ
round_up m = if m % 64 == 0 then m else (m + (64 - m % 64)) % 2 ^ 64
