-- ===== src/Replay/FarFuture.antt =====
-- pkg/replay/bloom.go: a payload whose time is 2^63 nanoseconds or more ahead of the clock.
use avangard_private.Common.{
  ℕ, ◌+◌, ◌^◌, ◌≤◌, ◌<◌, ◌≡◌, ◌∙◌, ap, subst, sym, inl, inr, true, Bytes, arith, Bool-cases,
}
use avangard_private.Replay.{Filter, fresh, maybe_rotate, seen, commit, check_key, digest, check}
use avangard_private.Replay.Time.{longer_far}
use avangard_private.Replay.Bloom.{contains, contains-new_bloom, contains-add}
use avangard_private.Replay.Remembers.{IsFilter, check_key_fixed, maybe_rotate-IsFilter}

-- An accepted key is in the filter that is filled.
commit-stored :
    (f : Filter) (key : Bytes)
    → IsFilter f
    → (commit f key).1 ≡ fresh
    → contains (commit f key).0.curr key (commit f key).0.hashes ≡ true
unfolding commit
commit-stored f key w h = elim (Bool-cases (seen f key)) [
  | inl e ↦ absurd (ground arith)
  | inr e ↦ rw e (contains-add f.curr key f.hashes w.curr_ok)
]

check_key-stored :
    (f : Filter) (now : ℕ) (key : Bytes)
    → IsFilter f
    → (check_key f now key).1 ≡ fresh
    → contains (check_key f now key).0.curr key (check_key f now key).0.hashes ≡ true
unfolding check_key
check_key-stored f now key w h = elim (Bool-cases (seen (maybe_rotate f now) key)) [
  | inl e ↦ absurd (ground arith)
  | inr e ↦
      rw e (commit-stored (maybe_rotate f now) key (maybe_rotate-IsFilter f now w) (rw e at h))
]

-- Two rotations later the key is forgotten.
check_key-again :
    (f : Filter) (now now' : ℕ) (key : Bytes)
    → 0 < f.hashes
    → f.rotate_at ≤ now
    → contains f.curr key f.hashes ≡ true
    → now + f.rotate_rate ≤ now'
    → (check_key (check_key f now key).0 now' key).1 ≡ fresh
unfolding check_key commit maybe_rotate seen
check_key-again f now now' key k h c t = ground (arith, contains-new_bloom f.bits f.hashes key k)

module _ (sha256 : Bytes → Bytes) where
  check_far :
      (f : Filter) (now ts : ℕ) (nonce : Bytes)
      → now + 2 ^ 63 ≤ ts
      → check sha256 f now ts nonce ≡ check_key f now (digest sha256 ts nonce)
  unfolding check
  check_far f now ts nonce h = rw (longer_far now ts f.skew h)

  -- A payload whose time is at least 2^63 nanoseconds ahead of every clock reading, accepted once and
  -- sent again when the next rotation is due, is accepted a second time a period after that.
  pub check_far_twice :
      (f : Filter) (now1 now2 now3 ts : ℕ) (nonce : Bytes)
      → IsFilter f
      → 0 < f.hashes
      → now1 ≤ now2
      → now3 + 2 ^ 63 ≤ ts
      → (check sha256 f now1 ts nonce).1 ≡ fresh
      → (check sha256 f now1 ts nonce).0.rotate_at ≤ now2
      → now2 + (check sha256 f now1 ts nonce).0.rotate_rate ≤ now3
      → let f1 = (check sha256 f now1 ts nonce).0 in
        let f2 = (check sha256 f1 now2 ts nonce).0 in (check sha256 f2 now3 ts nonce).1 ≡ fresh
  check_far_twice f now1 now2 now3 ts nonce w k o far h r t =
      let key = digest sha256 ts nonce in
      let one = check_far f now1 ts nonce (omega arith) in
      let f1 = (check sha256 f now1 ts nonce).0 in
      let stored : contains f1.curr key f1.hashes ≡ true =
        subst (λ x. contains x.0.curr key x.0.hashes ≡ true) (sym one)
          (check_key-stored f now1 key w (subst (λ x. x.1 ≡ fresh) one h)) in
      let some_hashes : 0 < f1.hashes = ground (arith, one, check_key_fixed f now1 key) in
      let two = check_far f1 now2 ts nonce (omega arith) in
      let f2 = (check sha256 f1 now2 ts nonce).0 in
      ap (λ x. x.1) (check_far f2 now3 ts nonce far)
      ∙ ap (λ x. (check_key x.0 now3 key).1) two
      ∙ check_key-again f1 now2 now3 key some_hashes r stored t
