-- ===== src/Replay/Concurrent.antt =====
-- pkg/replay/bloom.go: calls of `Check` that run at the same time. Each call enters two critical
-- sections: `maybeRotate` with its reading of the clock, and the look and the insertion under the write
-- lock. The sections of several calls come in any order; the look under the read lock changes nothing.
use avangard_private.Common.{
  ℕ, ◌+◌, ◌<◌, ◌≤◌, ◌≡◌, ◌∙◌, inl, inr, refl, List, [], ◌∷◌, Bytes, All, arith,
}
use avangard_private.Replay.{Filter, fresh, replay, maybe_rotate, commit}
use avangard_private.Replay.Remembers.{
  IsFilter, Knows, Knows-seen, maybe_rotate-IsFilter, maybe_rotate-Knows, commit-IsFilter,
  commit-Knows, commit-fresh, rotate_later,
}

pub data Section : Type 0 where
  rotates : ℕ → Section
  commits : Bytes → Section

unfoldable pub enter : Section → Filter → Filter
enter (rotates now) f = maybe_rotate f now
enter (commits key) f = (commit f key).0

unfoldable pub enter_all : List Section → Filter → Filter
enter_all [] f = f
enter_all (s ∷ ss) f = enter_all ss (enter s f)

-- The clock reading of a rotation is at most `t`.
abbrev pub Until : ℕ → Section → Type 0
Until t (rotates now) = now ≤ t
Until t (commits key) = Unit

enter-IsFilter : (s : Section) (f : Filter) → IsFilter f → IsFilter (enter s f)
unfolding enter
enter-IsFilter (rotates now) f w = maybe_rotate-IsFilter f now w
enter-IsFilter (commits key) f w = commit-IsFilter f key w

enter_all-IsFilter : (ss : List Section) (f : Filter) → IsFilter f → IsFilter (enter_all ss f)
unfolding enter_all
enter_all-IsFilter [] f w = w
enter_all-IsFilter (s ∷ ss) f w = enter_all-IsFilter ss (enter s f) (enter-IsFilter s f w)

enter_fixed :
    (s : Section) (f : Filter)
    → ((enter s f).rotate_rate ≡ f.rotate_rate) × (f.rotate_at ≤ (enter s f).rotate_at)
unfolding enter maybe_rotate commit
enter_fixed (rotates now) f = ground arith
enter_fixed (commits key) f = ground arith

enter_all_fixed :
    (ss : List Section) (f : Filter)
    → ((enter_all ss f).rotate_rate ≡ f.rotate_rate) × (f.rotate_at ≤ (enter_all ss f).rotate_at)
unfolding enter_all
enter_all_fixed [] f = (refl, omega arith)
enter_all_fixed (s ∷ ss) f =
    let a = enter_fixed s f in
    let b = enter_all_fixed ss (enter s f) in (b.0 ∙ a.0, omega (arith, a.1, b.1))

enter-Knows :
    (s : Section) (f : Filter) (key : Bytes) (t0 : ℕ)
    → IsFilter f
    → Until (t0 + f.rotate_rate) s
    → Knows f key t0
    → Knows (enter s f) key t0
unfolding enter
enter-Knows (rotates now) f key t0 w u k = elim (maybe_rotate-Knows f key t0 now k) [
  | inl known ↦ known
  | inr late ↦ absurd (omega arith)
]
enter-Knows (commits other) f key t0 w u k = commit-Knows f key other t0 w k

enter_all-Knows :
    (ss : List Section) (f : Filter) (key : Bytes) (t0 rate : ℕ)
    → IsFilter f
    → f.rotate_rate ≡ rate
    → All (Until (t0 + rate)) ss
    → Knows f key t0
    → Knows (enter_all ss f) key t0
unfolding enter_all
enter_all-Knows [] f key t0 rate w r u k = k
enter_all-Knows (s ∷ ss) f key t0 rate w r u k =
    enter_all-Knows ss (enter s f) key t0 rate (enter-IsFilter s f w) ((enter_fixed s f).0 ∙ r) u.1
      (enter-Knows s f key t0 w (rw r u.0) k)

-- However the critical sections of concurrent calls interleave: of all calls with one payload at most
-- one is accepted, as long as no rotation has a clock reading of more than a period after the accepted
-- call's own. `before` are the sections that other calls enter between its two, `after` those between
-- its insertion and the other call's.
pub commit_once :
    (f : Filter) (t0 : ℕ) (key : Bytes) (before after : List Section)
    → IsFilter f
    → 0 < f.rotate_rate
    → All (Until (t0 + f.rotate_rate)) after
    → (commit (enter_all before (maybe_rotate f t0)) key).1 ≡ fresh
    → (commit (enter_all after (commit (enter_all before (maybe_rotate f t0)) key).0) key).1
      ≡ replay
commit_once f t0 key before after w r u h =
    let f1 = enter_all before (maybe_rotate f t0) in
    let ok1 = enter_all-IsFilter before (maybe_rotate f t0) (maybe_rotate-IsFilter f t0 w) in
    let fixed0 : (maybe_rotate f t0).rotate_rate ≡ f.rotate_rate =
      (unfold enter in (enter_fixed (rotates t0) f).0) in
    let fixed1 = enter_all_fixed before (maybe_rotate f t0) in
    let fixed2 : (commit f1 key).0.rotate_rate ≡ f1.rotate_rate =
      (unfold enter in (enter_fixed (commits key) f1).0) in
    let known = commit-fresh f1 key t0 ok1 (omega (arith, rotate_later f t0 r, fixed1.1)) h in
    let kept =
      enter_all-Knows after (commit f1 key).0 key t0 f.rotate_rate (commit-IsFilter f1 key ok1)
        (fixed2 ∙ fixed1.0 ∙ fixed0) u known in
    let hit = Knows-seen (enter_all after (commit f1 key).0) key t0 kept in
    unfold commit in rw hit refl
