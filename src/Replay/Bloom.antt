-- ===== src/Replay/Bloom.antt =====
-- pkg/replay/bloom.go: `bloom`, a bloom filter over keys of 32 bytes.
use avangard_private.Common.{
  ℕ, zero, suc, false, ◌+◌, ◌*◌, ◌%◌, ◌^◌, ◌<◌, ◌≡◌, Bool, true, Bytes, [], ◌∷◌, length, slice,
  arith,
}
use avangard_private.Bitset.{Words, set_rounds, test_rounds, make_words}
use avangard_private.Bitset.Laws.{
  Fits, test_rounds-set_rounds, test_rounds-set_rounds_mono, length-set_rounds, length-make_words,
  test_rounds-make_words,
}

pub record BloomFilter : Type 0 where
  pub m : ℕ
  pub bits : Words

unfoldable pub new_bloom : ℕ → BloomFilter
new_bloom m = record { m = m; bits = make_words m }

-- `binary.BigEndian.Uint64`
abbrev uint64_from : ℕ → Bytes → ℕ
uint64_from n [] = n
uint64_from n (b ∷ bs) = uint64_from (n * 256 + b) bs

unfoldable pub bloom_idx : Bytes → ℕ → ℕ → ℕ
bloom_idx key m i =
    let h1 = uint64_from 0 (slice 0 8 key) in
    let h2 = uint64_from 0 (slice 8 16 key) in (h1 + i * h2 % 2 ^ 64) % 2 ^ 64 % m

unfoldable pub add : BloomFilter → Bytes → ℕ → BloomFilter
add b key k = record b { bits = set_rounds (bloom_idx key b.m) k 0 b.bits }

unfoldable pub contains : BloomFilter → Bytes → ℕ → Bool
contains b key k = test_rounds (bloom_idx key b.m) k 0 b.bits

-- The words hold m bits, and there are some.
pub record IsBloom (b : BloomFilter) : Type 0 where
  pub some_bits : 0 < b.m
  pub all_words : length b.bits * 64 ≡ b.m

bloom_idx-lt : (key : Bytes) (m i : ℕ) → 0 < m → bloom_idx key m i < m
unfolding bloom_idx
bloom_idx-lt key m i h = omega arith

bloom_idx-Fits : (b : BloomFilter) (key : Bytes) → IsBloom b → Fits (bloom_idx key b.m) b.bits
bloom_idx-Fits b key w i =
    omega (arith, bloom_idx-lt key b.m i w.some_bits, w.some_bits, w.all_words)

pub new_bloom-IsBloom : (m : ℕ) → 0 < m → m % 64 ≡ 0 → IsBloom (new_bloom m)
unfolding new_bloom
new_bloom-IsBloom m h k = record { some_bits = h; all_words = length-make_words m k }

pub add-IsBloom : (b : BloomFilter) (key : Bytes) (k : ℕ) → IsBloom b → IsBloom (add b key k)
unfolding add
add-IsBloom b key k w = record {
  some_bits = w.some_bits;
  all_words = omega (arith, length-set_rounds (bloom_idx key b.m) k 0 b.bits, w.all_words);
}

-- In a bloom filter whose words hold its bits, a key that was added is found.
pub contains-add :
    (b : BloomFilter) (key : Bytes) (k : ℕ) → IsBloom b → contains (add b key k) key k ≡ true
unfolding contains add
contains-add b key k w =
    test_rounds-set_rounds (bloom_idx key b.m) k 0 b.bits (bloom_idx-Fits b key w)

-- In a bloom filter whose words hold its bits, a key that is found is still found when another one is
-- added.
pub contains-add_other :
    (b : BloomFilter) (key other : Bytes) (k : ℕ)
    → IsBloom b
    → contains b key k ≡ true
    → contains (add b other k) key k ≡ true
unfolding contains add
contains-add_other b key other k w h =
    test_rounds-set_rounds_mono (bloom_idx key b.m) (bloom_idx other b.m) k k b.bits
      (bloom_idx-Fits b other w) h

pub contains-new_bloom : (m k : ℕ) (key : Bytes) → 0 < k → contains (new_bloom m) key k ≡ false
unfolding contains new_bloom
contains-new_bloom m zero key h = absurd (omega arith)
contains-new_bloom m (suc k) key h = test_rounds-make_words (bloom_idx key m) k 0 m
