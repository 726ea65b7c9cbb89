-- ===== src/Tunnel/Composite/Reached.antt =====
-- pkg/tunnel/server.go, `CompositeListener`: what holds in every state that can be reached.
use avangard_private.Common.{
  ℕ, ◌≡◌, ◌≢◌, ◌⊎◌, inl, inr, refl, true, [], ◌++◌, ◌==◌, Option, none, some, Bool-cases, arith,
}
use avangard_private.Tunnel.Composite.{
  Pump, waiting, stopped, holding, dropped, Composite, update, after_send, new_composite, Step,
  accepts, sends, quits, delivers, closes, Reachable, start, next,
}
use avangard_private.Tunnel.Composite.Order.{
  from, in_hand, lost, InOrder, accepts-InOrder, sends-InOrder, quits-InOrder, delivers-InOrder,
}

Step-InOrder : {c d : Composite} → Step c d → InOrder c → InOrder d
Step-InOrder {c} (accepts k r lt w) o = accepts-InOrder c k r w o
Step-InOrder {c} (sends k r w lt) o = sends-InOrder c k r w o
Step-InOrder {c} (quits k r w e) o = quits-InOrder c k r w o
Step-InOrder {c} (delivers x rest e) o = delivers-InOrder c x rest e o
Step-InOrder {c} closes o = o

Reachable_order : {n : ℕ} {c : Composite} → Reachable n c → InOrder c
unfolding new_composite from
Reachable_order start i = refl
Reachable_order (next r s) i = Step-InOrder s (Reachable_order r) i

-- Only once the listener is closed does a goroutine drop what it took.
abbrev DropsLate : Composite → Type 0
DropsLate c = (k : ℕ) (r : Option ℕ) → c.pumps k ≡ dropped r → c.closed ≡ true

after_send-ne-dropped : (r q : Option ℕ) → after_send r ≢ dropped q
after_send-ne-dropped none q e = absurd (cc)
after_send-ne-dropped (some s) q e = absurd (cc)

-- A goroutine that is not `k` is left as it was.
update-cases :
    (k i : ℕ) (p q : Pump) (pumps : ℕ → Pump)
    → update k p pumps i ≡ q
    → ((k ≡ i) × (p ≡ q)) ⊎ (pumps i ≡ q)
update-cases k i p q pumps h = elim (Bool-cases (k == i)) [
  | inl e ↦ inl (ground arith, rw e at h)
  | inr e ↦ inr (rw e at h)
]

Step-DropsLate : {c d : Composite} → Step c d → DropsLate c → DropsLate d
Step-DropsLate {c} (accepts k r lt w) s i q h =
    elim (update-cases k i (holding r) (dropped q) c.pumps h) [
      | inl (e, f) ↦ absurd (cc)
      | inr f ↦ s i q f
    ]
Step-DropsLate {c} (sends k r w lt) s i q h =
    elim (update-cases k i (after_send r) (dropped q) c.pumps h) [
      | inl (e, f) ↦ absurd (after_send-ne-dropped r q f)
      | inr f ↦ s i q f
    ]
Step-DropsLate (quits k r w done) s i q h = done
Step-DropsLate (delivers x rest e) s i q h = s i q h
Step-DropsLate closes s i q h = refl

Reachable-DropsLate : {n : ℕ} {c : Composite} → Reachable n c → DropsLate c
unfolding new_composite
Reachable-DropsLate start k r h = absurd (cc)
Reachable-DropsLate (next x s) k r h = Step-DropsLate s (Reachable-DropsLate x) k r h

lost_none_or :
    (i : ℕ) (c : Composite) (p : Pump)
    → c.pumps i ≡ p
    → DropsLate c
    → (lost i p ≡ []) ⊎ (c.closed ≡ true)
lost_none_or i c waiting e late = inl refl
lost_none_or i c (holding r) e late = inl refl
lost_none_or i c stopped e late = inl refl
lost_none_or i c (dropped r) e late = inr (late i r e)

-- In every reachable state, whatever the goroutines' order: the items of each listener are, in the order
-- in which it gave them, those that `Accept` delivered, then those in the channel, then the one that its
-- goroutine has in hand, then the one that its goroutine dropped when it returned. None is dropped
-- unless the listener was closed.
pub Reachable-InOrder :
    {n : ℕ} {c : Composite}
    → Reachable n c
    → (i : ℕ)
    → (from i c.accepted
        ≡ from i c.delivered ++ (from i c.out ++ (in_hand i (c.pumps i) ++ lost i (c.pumps i))))
      × ((lost i (c.pumps i) ≡ []) ⊎ (c.closed ≡ true))
Reachable-InOrder {n} {c} r i =
    (Reachable_order r i, lost_none_or i c (c.pumps i) refl (Reachable-DropsLate r))
