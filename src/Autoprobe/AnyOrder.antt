-- ===== src/Autoprobe/AnyOrder.antt =====
-- pkg/autoprobe/probe.go, `Run`: the result does not depend on the order in which the probes finish.
use avangard_private.Common.{
  ℕ, Option, none, Option-cases, ◌↔◌, ◌⊎◌, sym, ◌^◌, ◌<◌, ◌≡◌, ◌∙◌, refl, ap, true, List, [], ◌∷◌,
  ◌++◌, All, Bytes, map, ltb, equal_iff, if◌then◌else◌, some, codes, Bool-cases, inl, inr, arith,
}
use avangard_private.Net.{join_host_port, decimal}
use avangard_private.Autoprobe.{ProbeStatus, ProbeResult}
use avangard_private.Autoprobe.Digits.{itoa-decimal}
use avangard_private.Autoprobe.Probes.{
  ProbeConfig, DialAnswer, tcp_udp_probe, Target, on_udp443, on_tcp443, on_alt, on_ref, targets,
  Started, goroutines, network, address, store, empty_result, timeout_of, store_all, run,
}
use avangard_private.Autoprobe.Distinct.{
  NoRepeats, Has, All-Has, Has-All, goroutines_apart, started-All,
}
use avangard_private.Autoprobe.Store.{same_target, Entry, entry, found, found-store, same_target-eq}

-- The address that a target is probed at.
abbrev pub address_of : Bytes → Target → Bytes
address_of host on_udp443 = join_host_port host (codes "443")
address_of host on_tcp443 = join_host_port host (codes "443")
address_of host (on_alt p) = join_host_port host (decimal p)
address_of host (on_ref ref) = ref

-- The last goroutine of a target.
abbrev or_else : Option Started → Option Started → Option Started
or_else none o = o
or_else (some u) o = some u

abbrev latest : Target → List Started → Option Started
latest t [] = none
latest t (u ∷ us) = or_else (latest t us) (if same_target u.target t then some u else none)

latest-Has :
    (t : Target) (us : List Started) (v : Started)
    → latest t us ≡ some v
    → Has v us × (v.target ≡ t)
latest-Has t [] v e = absurd (cc)
latest-Has t (u ∷ us) v e = elim (Option-cases (latest t us)) [
  | inr (w, q) ↦
      let same : w ≡ v = cc (rw q at e) in
      let (h, k) = latest-Has t us v (q ∙ ap some same) in (inr h, k)
  | inl n ↦ elim (Bool-cases (same_target u.target t)) [
    | inl y ↦
        let same : u ≡ v = cc (rw (n, y) at e) in
        (inl same, ap (λ x. x.target) (sym same) ∙ same_target-eq u.target t y)
    | inr m ↦ absurd (cc (rw (n, m) at e))
  ]
]

same_target_self : (t : Target) → same_target t t ≡ true
same_target_self on_udp443 = refl
same_target_self on_tcp443 = refl
same_target_self (on_alt p) = ground arith
same_target_self (on_ref p) = (equal_iff p p).1 refl

latest_of :
    (us : List Started) (u : Started) → Has u us → (v : Started) × (latest u.target us ≡ some v)
latest_of [] u h = absurd h
latest_of (x ∷ us) u h = elim (Option-cases (latest u.target us)) [
  | inr (v, q) ↦ (v, rw q refl)
  | inl n ↦ elim h [
    | inl e ↦ (x, rw n (rw e (rw (same_target_self u.target) refl)))
    | inr k ↦ let (v, q) = latest_of us u k in absurd (cc)
  ]
]

module _ (dial : ℕ → ℕ → Bytes → Bytes → DialAnswer) where
  -- What a goroutine finds.
  abbrev pub outcome : ProbeConfig → Started → ProbeStatus
  outcome cfg u =
      tcp_udp_probe
        (dial u.number (timeout_of cfg) (network u.target) (address_of cfg.server_host u.target))

  -- A port of at most ten digits.
  abbrev pub Fits : Target → Type 0
  Fits (on_alt p) = p < 10 ^ 10
  Fits t = Unit

  address-Fits : (host : Bytes) (t : Target) → Fits t → address host t ≡ some (address_of host t)
  address-Fits host on_udp443 h = refl
  address-Fits host on_tcp443 h = refl
  address-Fits host (on_alt p) h =
      let small : ltb p (10 ^ 10) ≡ true = ground (arith, h) in rw (itoa-decimal p) (rw small refl)
  address-Fits host (on_ref f) h = refl

  abbrev stored : ProbeConfig → Target → ProbeResult → Option Started → Option Entry
  stored cfg t r none = found t r
  stored cfg t r (some u) = some (entry t (outcome cfg u))

  stored_before :
      (cfg : ProbeConfig) (t : Target) (u : Started) (r : ProbeResult) (o : Option Started)
      → stored cfg t (store u.target (outcome cfg u) r) o
        ≡ stored cfg t r (or_else o (if same_target u.target t then some u else none))
  stored_before cfg t u r (some v) = refl
  stored_before cfg t u r none = elim (Bool-cases (same_target u.target t)) [
    | inl y ↦ found-store t u.target (outcome cfg u) r ∙ rw y refl
    | inr n ↦ found-store t u.target (outcome cfg u) r ∙ rw n refl
  ]

  -- Whatever is stored, of each target the last goroutine's outcome stays.
  store_all-found :
      (cfg : ProbeConfig) (us : List Started) (r : ProbeResult)
      → All (λ u. Fits u.target) us
      → (r' : ProbeResult) × (store_all dial cfg us r ≡ some r')
        × ((t : Target) → found t r' ≡ stored cfg t r (latest t us))
  unfolding store_all
  store_all-found cfg [] r h = (r, refl, λ t. refl)
  store_all-found cfg (u ∷ us) r (h, hs) =
      let (r', e, f) = store_all-found cfg us (store u.target (outcome cfg u) r) hs in
      (
        r',
        rw (address-Fits cfg.server_host u.target h) e,
        λ t. f t ∙ stored_before cfg t u r (latest t us),
      )

  refs-Fits : (refs : List Bytes) → All Fits (map on_ref refs)
  refs-Fits [] = tt
  refs-Fits (f ∷ refs) = (tt, refs-Fits refs)

  ports-Fits :
      (ports : List ℕ) (refs : List Bytes)
      → All (λ p. p < 10 ^ 10) ports
      → All Fits (map on_alt ports ++ map on_ref refs)
  ports-Fits [] refs h = refs-Fits refs
  ports-Fits (p ∷ ports) refs h = (h.0, ports-Fits ports refs h.1)

  goroutines-Fits :
      (cfg : ProbeConfig)
      → All (λ p. p < 10 ^ 10) cfg.alt_tcp_ports
      → All (λ u. Fits u.target) (goroutines cfg)
  unfolding targets
  goroutines-Fits cfg h =
      started-All Fits (targets cfg) 0 (tt, (tt, ports-Fits cfg.alt_tcp_ports cfg.rtt_refs h))

  -- Whatever each goroutine's dial gives and in whatever order they finish, if each of them finishes, no port has
  -- more than ten digits, and no port and no reference point is repeated: for the target of each
  -- goroutine the result has what that goroutine found (of a reference point only the time), and for any
  -- other target what a new result has.
  pub run_any_order :
      (schedule : List Started → List Started) (cfg : ProbeConfig)
      → ((u : Started) → Has u (schedule (goroutines cfg)) ↔ Has u (goroutines cfg))
      → All (λ p. p < 10 ^ 10) cfg.alt_tcp_ports
      → NoRepeats cfg.alt_tcp_ports
      → NoRepeats cfg.rtt_refs
      → (r : ProbeResult) × (run dial schedule cfg ≡ some r)
        × All (λ u. found u.target r ≡ some (entry u.target (outcome cfg u))) (goroutines cfg)
        × ((t : Target)
            → ((u : Started) × Has u (goroutines cfg) × (u.target ≡ t))
              ⊎ (found t r ≡ found t empty_result))
  unfolding run
  run_any_order schedule cfg same fit ports refs =
      let us = goroutines cfg in
      let (r, e, f) = store_all-found cfg (schedule us) empty_result (
        All-Has (λ u. Fits u.target) (schedule us)
          (λ u h. Has-All (λ x. Fits x.target) us u (goroutines-Fits cfg fit) ((same u).0 h))) in
      (
        r,
        e,
        All-Has (λ u. found u.target r ≡ some (entry u.target (outcome cfg u))) us
            λ u h.
              let (v, q) = latest_of (schedule us) u ((same u).1 h) in
              let (k, w) = latest-Has u.target (schedule us) v q in
              let one = goroutines_apart cfg v u ports refs ((same v).0 k) h w in
              f u.target
              ∙ ap (stored cfg u.target empty_result) q
              ∙ ap (λ x. some (entry u.target (outcome cfg x))) one,
        λ t. elim (Option-cases (latest t (schedule us))) [
          | inl n ↦ inr (f t ∙ ap (stored cfg t empty_result) n)
          | inr (v, q) ↦ let (k, w) = latest-Has t (schedule us) v q in inl (v, (same v).0 k, w)
        ],
      )
