-- ===== src/Autoprobe/Store.antt =====
-- pkg/autoprobe/probe.go, `Run`: what a result has for a target, and what a store changes of it.
use avangard_private.Common.{
  ℕ, ◌≡◌, ◌∙◌, refl, ap, subst, Bool, true, false, ◌↔◌, List, [], ◌∷◌, equal, equal_iff, ◌==◌,
  ==_iff, if◌then◌else◌, Option, none, some, Bool-cases, inl, inr, arith,
}
use avangard_private.Autoprobe.{ProbeStatus, ProbeResult}
use avangard_private.Autoprobe.Probes.{Target, on_udp443, on_tcp443, on_alt, on_ref, put, store}

abbrev pub lookup : {K V : Type 0} → (K → K → Bool) → K → List (K × V) → Option V
lookup same k [] = none
lookup same k ((a, v) ∷ m) = if same a k then some v else lookup same k m

abbrev pub same_target : Target → Target → Bool
same_target on_udp443 on_udp443 = true
same_target on_tcp443 on_tcp443 = true
same_target (on_alt p) (on_alt q) = p == q
same_target (on_ref p) (on_ref q) = equal p q
same_target t u = false

-- What a result has for a target: a whole status, or a duration only.
pub data Entry : Type 0 where
  whole : ProbeStatus → Entry
  duration : ℕ → Entry

abbrev pub entry : Target → ProbeStatus → Entry
entry (on_ref ref) st = duration st.rtt
entry t st = whole st

abbrev with : {A : Type 0} → (A → Entry) → Option A → Option Entry
with f none = none
with f (some a) = some (f a)

abbrev pub found : Target → ProbeResult → Option Entry
found on_udp443 r = some (whole r.udp443)
found on_tcp443 r = some (whole r.tcp443)
found (on_alt p) r = with whole (lookup ◌==◌ p r.tcp_alt)
found (on_ref ref) r = with duration (lookup equal ref r.rtts)

if_same :
    {A : Type 0} (b : Bool) (x y z : A)
    → (if b then x else z) ≡ (if b then x else if b then y else z)
if_same true x y z = refl
if_same false x y z = refl

lookup-put :
    {K V : Type 0} (same : K → K → Bool) (sound : (a b : K) → (same a b ≡ true) ↔ (a ≡ b)) (j k : K)
    (v : V) (m : List (K × V))
    → lookup same k (put same j v m) ≡ (if same j k then some v else lookup same k m)
lookup-put same sound j k v [] = refl
lookup-put same sound j k v ((a, w) ∷ m) = elim (Bool-cases (same a j)) [
  | inl e ↦
      let eq : a ≡ j = (sound a j).0 e in
      rw e (rw eq (if_same (same j k) (some v) (some w) (lookup same k m)))
  | inr n ↦ elim (Bool-cases (same j k)) [
    | inl y ↦
        let apart : same a k ≡ false = subst (λ x. same a x ≡ false) ((sound j k).0 y) n in
        rw (n, y, apart) (lookup-put same sound j k v m ∙ rw y refl)
    | inr f ↦ rw (n, f) (rw (lookup-put same sound j k v m) (rw f refl))
  ]
]

with_if :
    {A : Type 0} (f : A → Entry) (b : Bool) (a : A) (o : Option A)
    → with f (if b then some a else o) ≡ (if b then some (f a) else with f o)
with_if f true a o = refl
with_if f false a o = refl

pub found-store :
    (t u : Target) (st : ProbeStatus) (r : ProbeResult)
    → found t (store u st r) ≡ (if same_target u t then some (entry t st) else found t r)
found-store on_udp443 on_udp443 st r = refl
found-store on_udp443 on_tcp443 st r = refl
found-store on_udp443 (on_alt p) st r = refl
found-store on_udp443 (on_ref f) st r = refl
found-store on_tcp443 on_udp443 st r = refl
found-store on_tcp443 on_tcp443 st r = refl
found-store on_tcp443 (on_alt p) st r = refl
found-store on_tcp443 (on_ref f) st r = refl
found-store (on_alt q) on_udp443 st r = refl
found-store (on_alt q) on_tcp443 st r = refl
found-store (on_alt q) (on_alt p) st r =
    ap (with whole) (lookup-put ◌==◌ ==_iff p q st r.tcp_alt)
    ∙ with_if whole (p == q) st (lookup ◌==◌ q r.tcp_alt)
found-store (on_alt q) (on_ref f) st r = refl
found-store (on_ref g) on_udp443 st r = refl
found-store (on_ref g) on_tcp443 st r = refl
found-store (on_ref g) (on_alt p) st r = refl
found-store (on_ref g) (on_ref f) st r =
    ap (with duration) (lookup-put equal equal_iff f g st.rtt r.rtts)
    ∙ with_if duration (equal f g) st.rtt (lookup equal g r.rtts)

pub same_target-eq : (u t : Target) → same_target u t ≡ true → u ≡ t
same_target-eq on_udp443 on_udp443 e = refl
same_target-eq on_tcp443 on_tcp443 e = refl
same_target-eq (on_alt p) (on_alt q) e = ap on_alt (ground (arith, e))
same_target-eq (on_ref p) (on_ref q) e = ap on_ref ((equal_iff p q).0 e)
same_target-eq u t e = absurd (cc)
