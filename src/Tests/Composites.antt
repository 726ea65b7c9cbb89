-- ===== src/Tests/Composites.antt =====
-- pkg/tunnel/server.go, `CompositeListener`: two listeners, the second of which fails after one stream.
use avangard_private.Common.{arith, ◌≡◌, ◌⊎◌, refl, true, [], ◌∷◌, ◌++◌, none, some}
use avangard_private.Tunnel.Composite.{
  waiting, holding, dropped, Composite, item, update, after_send, new_composite, accepts, sends,
  quits, delivers, closes, Reachable, start, next,
}
use avangard_private.Tunnel.Composite.Order.{from, in_hand, lost}
use avangard_private.Tunnel.Composite.Reached.{Reachable-InOrder}

abbrev two : Composite
two = record {
  listeners = 2;
  out = [];
  closed = true;
  pumps = update 0 (dropped (some 8)) (
      update 1 (after_send none) (
        update 0 (holding (some 8)) (
          update 1 (holding none)
            (update 0 (after_send (some 7)) (update 0 (holding (some 7)) (λ i. waiting))))));
  accepted = item 0 (some 7) ∷ item 1 none ∷ item 0 (some 8) ∷ [];
  delivered = item 0 (some 7) ∷ item 1 none ∷ [];
}

two_reached : Reachable 2 two
unfolding new_composite
two_reached =
    next
      (next
        (next
          (next
            (next
              (next
                (next
                  (next (next start (accepts 0 (some 7) (omega arith) refl))
                    (sends 0 (some 7) refl (omega arith)))
                  (accepts 1 none (omega arith) refl))
                (accepts 0 (some 8) (omega arith) refl))
              (sends 1 none refl (omega arith)))
            (delivers (item 0 (some 7)) (item 1 none ∷ []) refl))
          (delivers (item 1 none) [] refl))
        closes)
      (quits 0 (some 8) refl refl)

Reachable-InOrder_example :
    (from 0 two.accepted
      ≡ from 0 two.delivered
        ++ (from 0 two.out ++ (in_hand 0 (two.pumps 0) ++ lost 0 (two.pumps 0))))
    × ((lost 0 (two.pumps 0) ≡ []) ⊎ (two.closed ≡ true))
Reachable-InOrder_example = Reachable-InOrder two_reached 0
