-- ===== src/Acceptor/Closing.antt =====
-- pkg/transport: calls of a server's `Close` at the same time.
use avangard_private.Common.{ℕ, suc, ◌+◌, ◌≤◌, ◌≡◌, refl, true, false, if◌then◌else◌, arith}
use avangard_private.Acceptor.{
  Acceptor, new_acceptor, Step, authenticates, sends, quits, delivers, finds_closed, finds_open,
  closes_done, closes_once, Reachable, start, next,
}

-- The calls that have yet to close `done`, and the one that did.
record Counted (a : Acceptor) : Type 0 where
  owed : a.closing + (if a.done then 1 else 0) ≤ a.calls
  twice : a.panicked ≡ true → 2 ≤ a.calls

Step-Counted : {a b : Acceptor} → Step a b → Counted a → Counted b
Step-Counted {a} (authenticates x) k = record { owed = k.owed; twice = k.twice }
Step-Counted {a} (sends before after x w lt) k = record { owed = k.owed; twice = k.twice }
Step-Counted {a} (quits before after x w d) k = record { owed = k.owed; twice = k.twice }
Step-Counted {a} (delivers x rest e) k = record { owed = k.owed; twice = k.twice }
Step-Counted {a} (finds_closed d) k = record {
  owed = ground (arith, k.owed);
  twice = λ p. omega (arith, k.twice p);
}
Step-Counted {a} (finds_open d) k = record {
  owed = ground (arith, k.owed);
  twice = λ p. omega (arith, k.twice p);
}
Step-Counted {a} (closes_done n c) k = record {
  owed = ground (arith, k.owed);
  twice = λ p. ground (arith, k.owed, k.twice);
}
Step-Counted {a} closes_once k = record {
  owed = ground (arith, k.owed);
  twice = λ p. omega (arith, k.twice p);
}

Reachable-Counted : {n : ℕ} {a : Acceptor} → Reachable n a → Counted a
unfolding new_acceptor
Reachable-Counted start = record { owed = omega arith; twice = λ p. absurd (cc) }
Reachable-Counted (next r s) = Step-Counted s (Reachable-Counted r)

-- In every state that can be reached, `done` was closed twice, which panics, only if `Close` was called
-- twice.
pub panic_needs_two : {n : ℕ} {a : Acceptor} → Reachable n a → a.panicked ≡ true → 2 ≤ a.calls
panic_needs_two r p = (Reachable-Counted r).twice p

-- From every state that can be reached in which `done` is open, two calls of the `Close` of tcp and quic
-- can run so that `done` is closed twice.
pub close_race :
    {n : ℕ} {a : Acceptor}
    → Reachable n a
    → a.done ≡ false
    → (b : Acceptor) × Reachable n b × (b.panicked ≡ true) × (b.calls ≡ a.calls + 2)
close_race {n} {a} r d =
    let b = record a { closing = suc a.closing; calls = suc a.calls } in
    let r2 : Reachable n (record a { closing = suc (suc a.closing); calls = suc (suc a.calls) }) =
      next (next r (finds_open d)) (finds_open {a = b} d) in
    (
      _,
      next (next r2 (closes_done (suc a.closing) refl)) (closes_done a.closing refl),
      ground arith,
      omega arith,
    )
