-- ===== src/Tunnel/Composite/Order.antt =====
-- pkg/tunnel/server.go, `CompositeListener`: nothing is lost or doubled, and each listener's order is kept.
use mathlib.Core.List.{append_assoc, append-nil}
use avangard_private.Common.{
  ℕ, ◌≡◌, ◌∙◌, inl, inr, refl, sym, ap, true, false, List, [], ◌∷◌, ◌++◌, ◌==◌, if◌then◌else◌,
  Option, none, some, Bool-cases, arith,
}
use avangard_private.Tunnel.Composite.{
  AcceptItem, Pump, waiting, holding, stopped, dropped, Composite, item, update, after_send,
}

-- The items of one listener.
unfoldable pub from : ℕ → List AcceptItem → List AcceptItem
from i [] = []
from i (x ∷ xs) = let rest = from i xs in if x.listener == i then x ∷ rest else rest

-- What a goroutine that has not returned has in hand.
abbrev pub in_hand : ℕ → Pump → List AcceptItem
in_hand i waiting = []
in_hand i (holding r) = item i r ∷ []
in_hand i stopped = []
in_hand i (dropped r) = []

-- What a goroutine had taken when it returned, which nobody can get any more.
abbrev pub lost : ℕ → Pump → List AcceptItem
lost i waiting = []
lost i (holding r) = []
lost i stopped = []
lost i (dropped r) = item i r ∷ []

-- What a goroutine has taken from its listener and not sent.
abbrev pub unsent : ℕ → Pump → List AcceptItem
unsent i p = in_hand i p ++ lost i p

from-append : (i : ℕ) (xs ys : List AcceptItem) → from i (xs ++ ys) ≡ from i xs ++ from i ys
unfolding from
from-append i [] ys = refl
from-append i (x ∷ xs) ys = elim (Bool-cases (x.listener == i)) [
  | inl e ↦ rw e (ap (◌∷◌ x) (from-append i xs ys))
  | inr e ↦ rw e (from-append i xs ys)
]

unsent-after_send : (i : ℕ) (r : Option ℕ) → unsent i (after_send r) ≡ []
unsent-after_send i none = refl
unsent-after_send i (some s) = refl

-- In order, a listener's items are those that were delivered, those in the channel, and the one that was not sent.
abbrev pub InOrder : Composite → Type 0
InOrder c =
    (i : ℕ) → from i c.accepted ≡ from i c.delivered ++ (from i c.out ++ unsent i (c.pumps i))

-- With one more item of the listener `k` at the end of each side.
from-own : (k i : ℕ) (r : Option ℕ) → (k == i) ≡ true → from i (item k r ∷ []) ≡ item i r ∷ []
unfolding from
from-own k i r e = let same : k ≡ i = ground arith in rw e (ap (λ j. item j r ∷ []) same)

from-other : (k i : ℕ) (r : Option ℕ) → (k == i) ≡ false → from i (item k r ∷ []) ≡ []
unfolding from
from-other k i r e = rw e refl

pub accepts-InOrder :
    (c : Composite) (k : ℕ) (r : Option ℕ)
    → c.pumps k ≡ waiting
    → InOrder c
    → InOrder
        (record c { pumps = update k (holding r) c.pumps; accepted = c.accepted ++ item k r ∷ [] })
accepts-InOrder c k r w o i = elim (Bool-cases (k == i)) [
  | inl e ↦
      let same : k ≡ i = ground arith in
      let idle : unsent i (c.pumps i) ≡ [] = ap (unsent i) (ap c.pumps (sym same) ∙ w) in
      from-append i c.accepted (item k r ∷ [])
      ∙ rw (from-own k i r e, o i, idle)
          (rw e (
            append_assoc (from i c.delivered) (from i c.out ++ []) _
            ∙ ap (λ x. from i c.delivered ++ x) (append_assoc (from i c.out) [] _)))
  | inr e ↦
      from-append i c.accepted (item k r ∷ []) ∙ rw (from-other k i r e) (rw e (append-nil _ ∙ o i))
]

pub sends-InOrder :
    (c : Composite) (k : ℕ) (r : Option ℕ)
    → c.pumps k ≡ holding r
    → InOrder c
    → InOrder (record c { pumps = update k (after_send r) c.pumps; out = c.out ++ item k r ∷ [] })
sends-InOrder c k r w o i = elim (Bool-cases (k == i)) [
  | inl e ↦
      let same : k ≡ i = ground arith in
      let held : unsent i (c.pumps i) ≡ item i r ∷ [] = ap (unsent i) (ap c.pumps (sym same) ∙ w) in
      o i
      ∙ rw (held, from-append i c.out (item k r ∷ []), from-own k i r e)
          (rw e (
            rw (unsent-after_send i r) (
              ap (λ x. from i c.delivered ++ x)
                (sym (append-nil (from i c.out ++ item i r ∷ []))))))
  | inr e ↦
      o i
      ∙ rw (from-append i c.out (item k r ∷ []), from-other k i r e)
          (rw e (
            ap (λ x. from i c.delivered ++ (x ++ unsent i (c.pumps i)))
              (sym (append-nil (from i c.out)))))
]

pub quits-InOrder :
    (c : Composite) (k : ℕ) (r : Option ℕ)
    → c.pumps k ≡ holding r
    → InOrder c
    → InOrder (record c { pumps = update k (dropped r) c.pumps })
quits-InOrder c k r w o i = elim (Bool-cases (k == i)) [
  | inl e ↦
      let same : k ≡ i = ground arith in
      let held : unsent i (c.pumps i) ≡ item i r ∷ [] = ap (unsent i) (ap c.pumps (sym same) ∙ w) in
      o i ∙ rw held (rw e refl)
  | inr e ↦ o i ∙ rw e refl
]

pub delivers-InOrder :
    (c : Composite) (x : AcceptItem) (rest : List AcceptItem)
    → c.out ≡ x ∷ rest
    → InOrder c
    → InOrder (record c { out = rest; delivered = c.delivered ++ x ∷ [] })
delivers-InOrder c x rest e o i =
    let h = unsent i (c.pumps i) in
    o i
    ∙ rw (e, from-append i (x ∷ []) rest, from-append i c.delivered (x ∷ []))
        (ap (λ y. from i c.delivered ++ y) (append_assoc (from i (x ∷ [])) (from i rest) h)
          ∙ sym (append_assoc (from i c.delivered) (from i (x ∷ [])) (from i rest ++ h)))
