-- ===== src/Tunnel/Composite.antt =====
-- pkg/tunnel/server.go, `CompositeListener`: one goroutine for each listener takes its accepted streams
-- to a shared channel, which `Accept` reads. A step is one statement of one goroutine; where a `select`
-- has several cases that are ready, any of them is a step.
pub mod Order
pub mod Reached
use avangard_private.Common.{
  ℕ, ◌+◌, ◌*◌, ◌<◌, ◌≡◌, Bool, true, false, List, [], ◌∷◌, ◌++◌, length, ◌==◌, if◌then◌else◌,
  Option, none, some,
}

-- What `Accept` of one listener gave: a stream, by its number, or an error.
pub record AcceptItem : Type 0 where
  pub listener : ℕ
  pub result : Option ℕ

-- A goroutine is in `ln.Accept`, or in the `select` with what it got; or it has returned, after an error
-- was sent, or with what it got when `done` was closed.
pub data Pump : Type 0 where
  waiting : Pump
  holding : Option ℕ → Pump
  stopped : Pump
  dropped : Option ℕ → Pump

-- `out` is the channel's buffer. `accepted` and `delivered` record what the listeners gave and what
-- `Accept` returned, in order.
pub record Composite : Type 0 where
  pub listeners : ℕ
  pub out : List AcceptItem
  pub closed : Bool
  pub pumps : ℕ → Pump
  pub accepted : List AcceptItem
  pub delivered : List AcceptItem

abbrev pub capacity : Composite → ℕ
capacity c = c.listeners * 4

abbrev pub item : ℕ → Option ℕ → AcceptItem
item k r = record { listener = k; result = r }

abbrev pub update : ℕ → Pump → (ℕ → Pump) → ℕ → Pump
update k p pumps i = if k == i then p else pumps i

-- `if err != nil { return }`
abbrev pub after_send : Option ℕ → Pump
after_send none = stopped
after_send (some stream) = waiting

unfoldable pub new_composite : ℕ → Composite
new_composite n = record {
  listeners = n;
  out = [];
  closed = false;
  pumps = λ i. waiting;
  accepted = [];
  delivered = [];
}

pub data Step : Composite → Composite → Type 0 where
  accepts :
      {c : Composite} (k : ℕ) (r : Option ℕ)
      → k < c.listeners
      → c.pumps k ≡ waiting
      → Step c (record c {
        pumps = update k (holding r) c.pumps;
        accepted = c.accepted ++ item k r ∷ [];
      })
  sends :
      {c : Composite} (k : ℕ) (r : Option ℕ)
      → c.pumps k ≡ holding r
      → length c.out < capacity c
      → Step c (record c { pumps = update k (after_send r) c.pumps; out = c.out ++ item k r ∷ [] })
  quits :
      {c : Composite} (k : ℕ) (r : Option ℕ)
      → c.pumps k ≡ holding r
      → c.closed ≡ true
      → Step c (record c { pumps = update k (dropped r) c.pumps })
  delivers :
      {c : Composite} (x : AcceptItem) (rest : List AcceptItem)
      → c.out ≡ x ∷ rest
      → Step c (record c { out = rest; delivered = c.delivered ++ x ∷ [] })
  closes : {c : Composite} → Step c (record c { closed = true })

pub data Reachable (n : ℕ) : Composite → Type 0 where
  start : Reachable n (new_composite n)
  next : {c d : Composite} → Reachable n c → Step c d → Reachable n d
