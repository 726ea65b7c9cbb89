-- ===== src/Replay/Remembers.antt =====
-- pkg/replay/bloom.go: what the filter remembers of an accepted payload, and for how long.
use avangard_private.Common.{
  ℕ, ◌+◌, ◌%◌, ◌≤◌, ◌<◌, ◌≡◌, ◌⊎◌, inl, inr, true, Bytes, leb, arith, Bool-cases,
}
use avangard_private.Replay.{Filter, fresh, replay, maybe_rotate, seen, commit, check_key}
use avangard_private.Replay.Bloom.{
  contains, IsBloom, new_bloom-IsBloom, add-IsBloom, contains-add, contains-add_other,
}

-- Both bloom filters have the size that the filter was made with.
pub record IsFilter (f : Filter) : Type 0 where
  pub some_bits : 0 < f.bits
  pub whole_words : f.bits % 64 ≡ 0
  pub curr_ok : IsBloom f.curr
  pub prev_ok : IsBloom f.prev

pub maybe_rotate-IsFilter : (f : Filter) (now : ℕ) → IsFilter f → IsFilter (maybe_rotate f now)
unfolding maybe_rotate
maybe_rotate-IsFilter f now w = elim (Bool-cases (leb f.rotate_at now)) [
  | inr e ↦ rw e w
  | inl e ↦ rw e (record {
    some_bits = w.some_bits;
    whole_words = w.whole_words;
    curr_ok = new_bloom-IsBloom f.bits w.some_bits w.whole_words;
    prev_ok = w.curr_ok;
  })
]

pub commit-IsFilter : (f : Filter) (key : Bytes) → IsFilter f → IsFilter (commit f key).0
unfolding commit
commit-IsFilter f key w = elim (Bool-cases (seen f key)) [
  | inl e ↦ rw e w
  | inr e ↦ rw e (record {
    some_bits = w.some_bits;
    whole_words = w.whole_words;
    curr_ok = add-IsBloom f.curr key f.hashes w.curr_ok;
    prev_ok = w.prev_ok;
  })
]

pub check_key-IsFilter :
    (f : Filter) (now : ℕ) (key : Bytes) → IsFilter f → IsFilter (check_key f now key).0
unfolding check_key
check_key-IsFilter f now key w = elim (Bool-cases (seen (maybe_rotate f now) key)) [
  | inl e ↦ rw e (maybe_rotate-IsFilter f now w)
  | inr e ↦ rw e (commit-IsFilter (maybe_rotate f now) key (maybe_rotate-IsFilter f now w))
]

-- The parameters never change.
pub check_key_fixed :
    (f : Filter) (now : ℕ) (key : Bytes)
    → ((check_key f now key).0.rotate_rate ≡ f.rotate_rate)
      × ((check_key f now key).0.skew ≡ f.skew)
      × ((check_key f now key).0.hashes ≡ f.hashes)
unfolding check_key commit maybe_rotate
check_key_fixed f now key = ground arith

-- The filter knows a key that was accepted at `t0`, in the filter that is still filled, or, with
-- the next rotation more than a period after `t0`, in the other one.
abbrev pub Knows : Filter → Bytes → ℕ → Type 0
Knows f key t0 =
    ((contains f.curr key f.hashes ≡ true) × (t0 < f.rotate_at))
    ⊎ ((contains f.prev key f.hashes ≡ true) × (t0 + f.rotate_rate < f.rotate_at))

pub Knows-seen : (f : Filter) (key : Bytes) (t0 : ℕ) → Knows f key t0 → seen f key ≡ true
unfolding seen
Knows-seen f key t0 k = ground arith

-- A rotation forgets a key only later than a period after it was accepted.
pub maybe_rotate-Knows :
    (f : Filter) (key : Bytes) (t0 now : ℕ)
    → Knows f key t0
    → Knows (maybe_rotate f now) key t0 ⊎ (t0 + f.rotate_rate < now)
unfolding maybe_rotate
maybe_rotate-Knows f key t0 now k = elim (Bool-cases (leb f.rotate_at now)) [
  | inr e ↦ rw e (inl k)
  | inl e ↦
      rw e (elim k [ inl (c, t) ↦ inl (inr (c, ground arith)) | inr (c, t) ↦ inr (ground arith) ])
]

pub commit-Knows :
    (f : Filter) (key other : Bytes) (t0 : ℕ)
    → IsFilter f
    → Knows f key t0
    → Knows (commit f other).0 key t0
unfolding commit
commit-Knows f key other t0 w k = elim (Bool-cases (seen f other)) [
  | inl e ↦ rw e k
  | inr e ↦ rw e (elim k [
    | inl (c, t) ↦ inl (contains-add_other f.curr key other f.hashes w.curr_ok c, t)
    | inr (c, t) ↦ inr (c, t)
  ])
]

pub check_key-Knows :
    (f : Filter) (key other : Bytes) (t0 now : ℕ)
    → IsFilter f
    → Knows f key t0
    → Knows (check_key f now other).0 key t0 ⊎ (t0 + f.rotate_rate < now)
unfolding check_key
check_key-Knows f key other t0 now w k = elim (maybe_rotate-Knows f key t0 now k) [
  | inr late ↦ inr late
  | inl k' ↦ inl (elim (Bool-cases (seen (maybe_rotate f now) other)) [
    | inl e ↦ rw e k'
    | inr e ↦
        rw e (commit-Knows (maybe_rotate f now) key other t0 (maybe_rotate-IsFilter f now w) k')
  ])
]

pub rotate_later : (f : Filter) (now : ℕ) → 0 < f.rotate_rate → now < (maybe_rotate f now).rotate_at
unfolding maybe_rotate
rotate_later f now h = ground arith

pub commit-fresh :
    (f : Filter) (key : Bytes) (now : ℕ)
    → IsFilter f
    → now < f.rotate_at
    → (commit f key).1 ≡ fresh
    → Knows (commit f key).0 key now
unfolding commit
commit-fresh f key now w t h = elim (Bool-cases (seen f key)) [
  | inl e ↦ absurd (ground arith)
  | inr e ↦ rw e (inl (contains-add f.curr key f.hashes w.curr_ok, t))
]

pub check_key-fresh :
    (f : Filter) (key : Bytes) (now : ℕ)
    → IsFilter f
    → 0 < f.rotate_rate
    → (check_key f now key).1 ≡ fresh
    → Knows (check_key f now key).0 key now
unfolding check_key
check_key-fresh f key now w r h = elim (Bool-cases (seen (maybe_rotate f now) key)) [
  | inl e ↦ absurd (ground arith)
  | inr e ↦ rw e (
      commit-fresh (maybe_rotate f now) key now (maybe_rotate-IsFilter f now w)
        (rotate_later f now r) (rw e at h))
]

pub check_key-known :
    (f : Filter) (key : Bytes) (t0 now : ℕ)
    → Knows f key t0
    → now ≤ t0 + f.rotate_rate
    → (check_key f now key).1 ≡ replay
unfolding check_key
check_key-known f key t0 now k h = elim (maybe_rotate-Knows f key t0 now k) [
  | inr late ↦ absurd (omega arith)
  | inl k' ↦ rw (Knows-seen (maybe_rotate f now) key t0 k')
]
