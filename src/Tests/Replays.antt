-- ===== src/Tests/Replays.antt =====
-- pkg/replay/bloom.go with a filter of 64 bits, and a stand-in for SHA-256.
use avangard_private.Common.{
  arith, ℕ, List, ◌+◌, ◌^◌, ◌≡◌, ◌≢◌, refl, true, [], ◌∷◌, ◌++◌, Bytes, replicate, take,
}
use avangard_private.Bitset.{set_bit, test_bit, set_rounds, test_rounds}
use avangard_private.Replay.{
  Options, Filter, fresh, replay, new_filter, maybe_rotate, seen, commit, check_key, digest, check,
}
use avangard_private.Replay.Time.{sub, abs, longer, unix_nano, big_endian64}
use avangard_private.Replay.Bloom.{IsBloom, new_bloom, bloom_idx, add, contains, new_bloom-IsBloom}
use avangard_private.Replay.Remembers.{IsFilter}
use avangard_private.Replay.NeverTwice.{new_filter-IsFilter, Call, run, check_never_twice}
use avangard_private.Replay.Concurrent.{rotates, commits, enter, enter_all, commit_once}
use avangard_private.Replay.FarFuture.{check_far_twice}

abbrev toy_hash : Bytes → Bytes
toy_hash b = take 32 (b ++ replicate 32 0)

abbrev options : Options
options = record { bits = 50; hashes = 2; clock_skew = 5; rotate_rate = 10 }

abbrev small : Filter
small = record {
  bits = 64;
  hashes = 2;
  skew = 5;
  rotate_rate = 10;
  curr = new_bloom 64;
  prev = new_bloom 64;
  rotate_at = 10;
}

new_small : new_filter options 0 ≡ small
unfolding new_filter
new_small = refl

small-IsFilter : IsFilter small
small-IsFilter = rw (← new_small) (new_filter-IsFilter options 0 (omega arith))

abbrev calls : List Call
calls =
    record { now = 3; ts = 2; nonce = 9 ∷ [] } ∷ record { now = 12; ts = 9; nonce = 8 ∷ [] } ∷ []

first_check : (check toy_hash small 1 2 (9 ∷ [])).1 ≡ fresh
unfolding check check_key maybe_rotate seen commit digest sub abs longer unix_nano big_endian64
    contains add bloom_idx new_bloom set_rounds test_rounds set_bit test_bit
first_check = refl

check_never_twice_example :
    (check toy_hash (run toy_hash (check toy_hash small 1 2 (9 ∷ [])).0 calls) 12 2 (9 ∷ [])).1
    ≢ fresh
check_never_twice_example =
    check_never_twice toy_hash small 1 12 2 (9 ∷ []) calls small-IsFilter (omega arith)
      (omega arith) (omega arith) (omega arith) first_check (omega arith, (omega arith, tt))
      (omega arith)

abbrev far : ℕ
far = 30 + 2 ^ 63

first_far : (check toy_hash small 1 far (9 ∷ [])).1 ≡ fresh
unfolding check check_key maybe_rotate seen commit digest sub abs longer unix_nano big_endian64
    contains add bloom_idx new_bloom set_rounds test_rounds set_bit test_bit
first_far = refl

far_rotate_at : (check toy_hash small 1 far (9 ∷ [])).0.rotate_at ≡ 10
unfolding check check_key maybe_rotate seen commit digest sub abs longer unix_nano big_endian64
    contains add bloom_idx new_bloom set_rounds test_rounds set_bit test_bit
far_rotate_at = refl

far_rotate_rate : (check toy_hash small 1 far (9 ∷ [])).0.rotate_rate ≡ 10
unfolding check check_key maybe_rotate seen commit digest sub abs longer unix_nano big_endian64
    contains add bloom_idx new_bloom set_rounds test_rounds set_bit test_bit
far_rotate_rate = refl

-- The same payload at 1, 11 and 21: the first and the third are accepted.
check_far_twice_example :
    let f1 = (check toy_hash small 1 far (9 ∷ [])).0 in
    let f2 = (check toy_hash f1 11 far (9 ∷ [])).0 in (check toy_hash f2 21 far (9 ∷ [])).1 ≡ fresh
check_far_twice_example =
    check_far_twice toy_hash small 1 11 21 far (9 ∷ []) small-IsFilter (omega arith) (omega arith)
      (omega arith) first_far (omega (arith, far_rotate_at)) (omega (arith, far_rotate_rate))

abbrev bloom64-IsBloom : IsBloom (new_bloom 64)
bloom64-IsBloom = new_bloom-IsBloom 64 (omega arith) refl

contains_run : contains (add (new_bloom 64) (replicate 32 5) 7) (replicate 32 5) 7 ≡ true
unfolding contains add bloom_idx new_bloom set_rounds test_rounds set_bit test_bit
contains_run = refl

IsBloom_run : IsBloom (add (new_bloom 64) (replicate 32 5) 7)
unfolding add bloom_idx new_bloom set_rounds set_bit
IsBloom_run = record { some_bits = omega arith; all_words = refl }

-- Two calls with the same payload: both have rotated before one of them inserts it.
rotated : enter_all (rotates 3 ∷ []) (maybe_rotate small 1) ≡ small
unfolding enter_all enter maybe_rotate
rotated = refl

first_commit :
    (commit (enter_all (rotates 3 ∷ []) (maybe_rotate small 1)) (replicate 32 5)).1 ≡ fresh
unfolding enter_all enter maybe_rotate commit seen contains bloom_idx new_bloom test_rounds test_bit
first_commit = refl

commit_once_example :
    (commit
      (enter_all
        (commits (replicate 32 6) ∷ [])
        (commit (enter_all (rotates 3 ∷ []) (maybe_rotate small 1)) (replicate 32 5)).0)
      (replicate 32 5)).1
    ≡ replay
commit_once_example =
    commit_once small 1 (replicate 32 5) (rotates 3 ∷ []) (commits (replicate 32 6) ∷ [])
      small-IsFilter (omega arith) (tt, tt) first_commit
