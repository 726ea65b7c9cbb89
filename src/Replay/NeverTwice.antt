-- ===== src/Replay/NeverTwice.antt =====
-- pkg/replay/bloom.go: no payload is accepted twice.
use avangard_private.Common.{
  ℕ, ◌+◌, ◌^◌, ◌≤◌, ◌<◌, ◌≡◌, ◌≢◌, ◌⊎◌, ◌∙◌, subst, sym, inl, inr, refl, false, List, [], ◌∷◌,
  Bytes, arith, Bool-cases,
}
use avangard_private.Bitset.{round_up}
use avangard_private.Bitset.Laws.{round_up_lem}
use avangard_private.Replay.{
  Filter, Options, default_bits, or_default, fresh, new_filter, check_key, digest, check,
}
use avangard_private.Replay.Time.{sub, abs, longer, longer_iff, max_duration}
use avangard_private.Replay.Bloom.{new_bloom, IsBloom, new_bloom-IsBloom}
use avangard_private.Replay.Remembers.{
  IsFilter, Knows, check_key-IsFilter, check_key_fixed, check_key-Knows, check_key-fresh,
  check_key-known,
}

-- `New` makes a filter of whole words, unless the size asked for is within 64 of 2^64.
pub new_filter-IsFilter :
    (opts : Options) (now : ℕ) → opts.bits + 63 < 2 ^ 64 → IsFilter (new_filter opts now)
unfolding new_filter
new_filter-IsFilter opts now h =
    let m = or_default opts.bits default_bits in
    let small : m + 63 < 2 ^ 64 = ground arith in
    let some : 0 < m = ground arith in
    let (whole, low, high) = round_up_lem m small in
    let b : IsBloom (new_bloom (round_up m)) = new_bloom-IsBloom (round_up m) (omega arith) whole in
    record { some_bits = omega arith; whole_words = whole; curr_ok = b; prev_ok = b }

pub record Call : Type 0 where
  pub now : ℕ
  pub ts : ℕ
  pub nonce : Bytes

-- The clock does not go back.
abbrev pub InOrder : ℕ → List Call → Type 0
InOrder t [] = Unit
InOrder t (c ∷ cs) = (t ≤ c.now) × InOrder c.now cs

abbrev pub last_time : ℕ → List Call → ℕ
last_time t [] = t
last_time t (c ∷ cs) = last_time c.now cs

last_time-le : (t : ℕ) (cs : List Call) → InOrder t cs → t ≤ last_time t cs
last_time-le t [] o = omega arith
last_time-le t (c ∷ cs) o = omega (arith, last_time-le c.now cs o.1)

module _ (sha256 : Bytes → Bytes) where
  unfoldable pub run : Filter → List Call → Filter
  run f [] = f
  run f (c ∷ cs) = run (check sha256 f c.now c.ts c.nonce).0 cs

  check-IsFilter :
      (f : Filter) (now ts : ℕ) (nonce : Bytes)
      → IsFilter f
      → IsFilter (check sha256 f now ts nonce).0
  unfolding check
  check-IsFilter f now ts nonce w = elim (Bool-cases (longer (abs (sub now ts)) f.skew)) [
    | inl e ↦ rw e w
    | inr e ↦ rw e (check_key-IsFilter f now (digest sha256 ts nonce) w)
  ]

  check_fixed :
      (f : Filter) (now ts : ℕ) (nonce : Bytes)
      → ((check sha256 f now ts nonce).0.rotate_rate ≡ f.rotate_rate)
        × ((check sha256 f now ts nonce).0.skew ≡ f.skew)
  unfolding check
  check_fixed f now ts nonce = ground (arith, check_key_fixed f now (digest sha256 ts nonce))

  -- After any sequence of calls of `Check` both bloom filters still have whole words for their bits.
  pub run-IsFilter : (f : Filter) (cs : List Call) → IsFilter f → IsFilter (run f cs)
  unfolding run
  run-IsFilter f [] w = w
  run-IsFilter f (c ∷ cs) w =
      run-IsFilter (check sha256 f c.now c.ts c.nonce).0 cs (check-IsFilter f c.now c.ts c.nonce w)

  run_fixed :
      (f : Filter) (cs : List Call)
      → ((run f cs).rotate_rate ≡ f.rotate_rate) × ((run f cs).skew ≡ f.skew)
  unfolding run
  run_fixed f [] = (refl, refl)
  run_fixed f (c ∷ cs) =
      ground (
        arith,
        run_fixed (check sha256 f c.now c.ts c.nonce).0 cs,
        check_fixed f c.now c.ts c.nonce,
      )

  -- The filter knows the key, or the clock is more than a period past `t0`.
  abbrev Kept : Filter → Bytes → ℕ → ℕ → ℕ → Type 0
  Kept f key t0 rate now = Knows f key t0 ⊎ (t0 + rate < now)

  check-Kept :
      (f : Filter) (key : Bytes) (t0 rate now ts : ℕ) (nonce : Bytes)
      → IsFilter f
      → f.rotate_rate ≡ rate
      → Knows f key t0
      → Kept (check sha256 f now ts nonce).0 key t0 rate now
  unfolding check
  check-Kept f key t0 rate now ts nonce w r k =
      elim (Bool-cases (longer (abs (sub now ts)) f.skew)) [
        | inl e ↦ rw e (inl k)
        | inr e ↦ rw (e, ← r) (check_key-Knows f key (digest sha256 ts nonce) t0 now w k)
      ]

  run-Kept :
      (cs : List Call) (f : Filter) (key : Bytes) (t0 rate last : ℕ)
      → IsFilter f
      → f.rotate_rate ≡ rate
      → InOrder last cs
      → Kept f key t0 rate last
      → Kept (run f cs) key t0 rate (last_time last cs)
  unfolding run
  run-Kept [] f key t0 rate last w r o k = k
  run-Kept (c ∷ cs) f key t0 rate last w r o (inr late) =
      inr (omega (arith, last_time-le c.now cs o.1))
  run-Kept (c ∷ cs) f key t0 rate last w r o (inl k) =
      run-Kept cs (check sha256 f c.now c.ts c.nonce).0 key t0 rate c.now
        (check-IsFilter f c.now c.ts c.nonce w) (ground (arith, check_fixed f c.now c.ts c.nonce))
        o.1 (check-Kept f key t0 rate c.now c.ts c.nonce w r k)

  -- An accepted payload is within the skew of the clock.
  check-fresh_parts :
      (f : Filter) (now ts : ℕ) (nonce : Bytes)
      → (check sha256 f now ts nonce).1 ≡ fresh
      → (longer (abs (sub now ts)) f.skew ≡ false)
        × (check sha256 f now ts nonce ≡ check_key f now (digest sha256 ts nonce))
  unfolding check
  check-fresh_parts f now ts nonce h = elim (Bool-cases (longer (abs (sub now ts)) f.skew)) [
    | inl e ↦ absurd (ground arith)
    | inr e ↦ (e, rw e)
  ]

  -- Once a payload was accepted, no later call accepts it again, whatever calls stand between, if the
  -- bloom filters have whole words, the clock does not go back, the filters rotate after twice the skew
  -- at the earliest, the skew is below the largest duration, and the payload's time is less than 2^63
  -- nanoseconds ahead of the clock.
  pub check_never_twice :
      (f : Filter) (now now' ts : ℕ) (nonce : Bytes) (cs : List Call)
      → IsFilter f
      → 0 < f.rotate_rate
      → f.skew + f.skew ≤ f.rotate_rate
      → f.skew < max_duration
      → ts < now + 2 ^ 63
      → (check sha256 f now ts nonce).1 ≡ fresh
      → InOrder now cs
      → last_time now cs ≤ now'
      → (check sha256 (run (check sha256 f now ts nonce).0 cs) now' ts nonce).1 ≢ fresh
  check_never_twice f now now' ts nonce cs w r s u far h o late again =
      let key = digest sha256 ts nonce in
      let f1 = (check sha256 f now ts nonce).0 in
      let f2 = run f1 cs in
      let (near, step) = check-fresh_parts f now ts nonce h in
      let (near', step') = check-fresh_parts f2 now' ts nonce again in
      let fixed1 = check_fixed f now ts nonce in
      let fixed2 = run_fixed f1 cs in
      let known : Knows f1 key now =
        subst (λ x. Knows x.0 key now) (sym step)
          (check_key-fresh f key now w r (subst (λ x. x.1 ≡ fresh) step h)) in
      let kept =
        run-Kept cs f1 key now f.rotate_rate now (check-IsFilter f now ts nonce w) fixed1.0 o
          (inl known) in
      let early : ts ≤ now + f.skew = ground (arith, longer_iff now ts f.skew u far) in
      let same_skew : f2.skew ≡ f.skew = fixed2.1 ∙ fixed1.1 in
      let far' : ts < now' + 2 ^ 63 = omega (arith, last_time-le now cs o) in
      let soon : now' ≤ now + f.rotate_rate =
        ground (arith, same_skew, longer_iff now' ts f2.skew (rw same_skew u) far') in
      elim kept [
        | inr gone ↦ omega arith
        | inl k ↦
            let rejected = check_key-known f2 key now now' k (rw (fixed2.0, fixed1.0) soon) in
            ground (arith, step')
      ]
