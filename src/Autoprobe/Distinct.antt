-- ===== src/Autoprobe/Distinct.antt =====
-- pkg/autoprobe/probe.go, `Run`: the goroutines that it starts, and that no two have the same target if the
-- configuration repeats nothing.
use avangard_private.Common.{
  ℕ, ◌+◌, ◌≡◌, ◌≢◌, ◌∙◌, inl, inr, refl, sym, ap, List, [], ◌∷◌, ◌++◌, All, All-append, Any, Bytes,
  map,
}
use avangard_private.Autoprobe.Probes.{
  ProbeConfig, Target, on_udp443, on_tcp443, on_alt, on_ref, targets, Started, started, goroutines,
}

abbrev pub NoRepeats : {A : Type 0} → List A → Type 0
NoRepeats [] = Unit
NoRepeats (x ∷ xs) = All (λ y. y ≢ x) xs × NoRepeats xs

abbrev pub Has : {A : Type 0} → A → List A → Type 0
Has u us = Any (λ x. x ≡ u) us

pub All-Has : {A : Type 0} (P : A → Type 0) (xs : List A) → ((x : A) → Has x xs → P x) → All P xs
All-Has P [] h = tt
All-Has P (x ∷ xs) h = (h x (inl refl), All-Has P xs (λ y k. h y (inr k)))

pub Has-All : {A : Type 0} (P : A → Type 0) (xs : List A) (x : A) → All P xs → Has x xs → P x
Has-All P [] x a h = absurd h
Has-All P (y ∷ xs) x a (inl e) = rw (← e) a.0
Has-All P (y ∷ xs) x a (inr h) = Has-All P xs x a.1 h

NoRepeats-append :
    {A : Type 0} (xs ys : List A)
    → NoRepeats xs
    → NoRepeats ys
    → All (λ x. All (λ y. y ≢ x) ys) xs
    → NoRepeats (xs ++ ys)
NoRepeats-append [] ys h k apart = k
NoRepeats-append (x ∷ xs) ys (h, hs) k (a, apart) =
    (All-append (λ y. y ≢ x) xs ys h a, NoRepeats-append xs ys hs k apart)

All-map_ne :
    {A B : Type 0} (f : A → B) (x : A) (xs : List A)
    → ((a b : A) → f a ≡ f b → a ≡ b)
    → All (λ y. y ≢ x) xs
    → All (λ y. y ≢ f x) (map f xs)
All-map_ne f x [] inj h = tt
All-map_ne f x (y ∷ xs) inj (n, h) = ((λ e. n (inj y x e)), All-map_ne f x xs inj h)

NoRepeats-map :
    {A B : Type 0} (f : A → B) (xs : List A)
    → ((a b : A) → f a ≡ f b → a ≡ b)
    → NoRepeats xs
    → NoRepeats (map f xs)
NoRepeats-map f [] inj h = tt
NoRepeats-map f (x ∷ xs) inj (n, h) = (All-map_ne f x xs inj n, NoRepeats-map f xs inj h)

-- No target is a port and a reference point.
ports_only : (p : ℕ) (refs : List Bytes) → All (λ y. y ≢ on_alt p) (map on_ref refs)
ports_only p [] = tt
ports_only p (f ∷ refs) = ((λ e. cc), ports_only p refs)

ports_apart :
    (ports : List ℕ) (refs : List Bytes)
    → All (λ x. All (λ y. y ≢ x) (map on_ref refs)) (map on_alt ports)
ports_apart [] refs = tt
ports_apart (p ∷ ports) refs = (ports_only p refs, ports_apart ports refs)

refs_not :
    (t : Target)
    → ((f : Bytes) → on_ref f ≢ t)
    → (refs : List Bytes) → All (λ y. y ≢ t) (map on_ref refs)
refs_not t n [] = tt
refs_not t n (f ∷ refs) = (n f, refs_not t n refs)

others_not :
    (t : Target)
    → ((p : ℕ) → on_alt p ≢ t)
    → ((f : Bytes) → on_ref f ≢ t)
    → (ports : List ℕ) (refs : List Bytes) → All (λ y. y ≢ t) (map on_alt ports ++ map on_ref refs)
others_not t m n [] refs = refs_not t n refs
others_not t m n (p ∷ ports) refs = (m p, others_not t m n ports refs)

targets-NoRepeats :
    (cfg : ProbeConfig)
    → NoRepeats cfg.alt_tcp_ports
    → NoRepeats cfg.rtt_refs
    → NoRepeats (targets cfg)
unfolding targets
targets-NoRepeats cfg p f = (
  ((λ e. cc), others_not on_udp443 (λ q e. cc) (λ g e. cc) cfg.alt_tcp_ports cfg.rtt_refs),
  (
    others_not on_tcp443 (λ q e. cc) (λ g e. cc) cfg.alt_tcp_ports cfg.rtt_refs,
    NoRepeats-append (map on_alt cfg.alt_tcp_ports) (map on_ref cfg.rtt_refs)
        (NoRepeats-map on_alt cfg.alt_tcp_ports (λ a b e. cc) p)
        (NoRepeats-map on_ref cfg.rtt_refs (λ a b e. cc) f)
        (ports_apart cfg.alt_tcp_ports cfg.rtt_refs),
  ),
)

target-Has : (u : Started) (ts : List Target) (i : ℕ) → Has u (started i ts) → Has u.target ts
unfolding started
target-Has u [] i h = h
target-Has u (t ∷ ts) i (inl e) = inl (ap (λ x. x.target) e)
target-Has u (t ∷ ts) i (inr h) = inr (target-Has u ts (i + 1) h)

started_apart :
    (ts : List Target) (i : ℕ) (u v : Started)
    → NoRepeats ts
    → Has u (started i ts)
    → Has v (started i ts)
    → u.target ≡ v.target
    → u ≡ v
unfolding started
started_apart [] i u v n h k e = absurd h
started_apart (t ∷ ts) i u v n (inl h) (inl k) e = sym h ∙ k
started_apart (t ∷ ts) i u v (n, ns) (inl h) (inr k) e = absurd (
    Has-All (λ y. y ≢ t) ts v.target n (target-Has v ts (i + 1) k)
      (sym e ∙ sym (ap (λ x. x.target) h)))
started_apart (t ∷ ts) i u v (n, ns) (inr h) (inl k) e = absurd (
    Has-All (λ y. y ≢ t) ts u.target n (target-Has u ts (i + 1) h) (e ∙ sym (ap (λ x. x.target) k)))
started_apart (t ∷ ts) i u v (n, ns) (inr h) (inr k) e = started_apart ts (i + 1) u v ns h k e

-- Goroutines with the same target are the same, if no port and no reference point is repeated.
pub goroutines_apart :
    (cfg : ProbeConfig) (u v : Started)
    → NoRepeats cfg.alt_tcp_ports
    → NoRepeats cfg.rtt_refs
    → Has u (goroutines cfg)
    → Has v (goroutines cfg)
    → u.target ≡ v.target
    → u ≡ v
goroutines_apart cfg u v p f = started_apart (targets cfg) 0 u v (targets-NoRepeats cfg p f)

pub started-All :
    (P : Target → Type 0) (ts : List Target) (i : ℕ)
    → All P ts
    → All (λ u. P u.target) (started i ts)
unfolding started
started-All P [] i h = tt
started-All P (t ∷ ts) i (h, hs) = (h, started-All P ts (i + 1) hs)
