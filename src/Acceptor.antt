-- ===== src/Acceptor.antt =====
-- pkg/transport: the channel between the handlers of a server and `Accept`, and `Close`, as in the
-- servers of tcp (tcp/server.go), quic, ws and smux. A step is one statement of one goroutine; where a
-- `select` has several cases that are ready, any of them is a step. Streams are numbers.
pub mod Places
pub mod Closing
use avangard_private.Common.{ℕ, suc, ◌<◌, ◌≡◌, Bool, true, false, ◌||◌, List, [], ◌∷◌, ◌++◌, length}

-- `out` is the channel's buffer, of size `capacity`; `waiting` are the streams of the handlers in their
-- `select`; `dropped` those that a handler closed. `accepted` and `delivered` record what the
-- handshakes gave and what `Accept` returned. `closing` counts the calls of `Close` that have found
-- `done` open and not closed it yet, and `calls` all the calls; `panicked` says that `done` was closed
-- twice.
pub record Acceptor : Type 0 where
  pub capacity : ℕ
  pub out : List ℕ
  pub waiting : List ℕ
  pub dropped : List ℕ
  pub accepted : List ℕ
  pub delivered : List ℕ
  pub done : Bool
  pub closing : ℕ
  pub calls : ℕ
  pub panicked : Bool

unfoldable pub new_acceptor : ℕ → Acceptor
new_acceptor capacity = record {
  capacity = capacity;
  out = [];
  waiting = [];
  dropped = [];
  accepted = [];
  delivered = [];
  done = false;
  closing = 0;
  calls = 0;
  panicked = false;
}

-- The handlers' and `Accept`'s statements, which are those of all four servers.
pub data Step : Acceptor → Acceptor → Type 0 where
  authenticates :
      {a : Acceptor} (s : ℕ)
      → Step a (record a { waiting = s ∷ a.waiting; accepted = a.accepted ++ s ∷ [] })
  sends :
      {a : Acceptor} (before after : List ℕ) (s : ℕ)
      → a.waiting ≡ before ++ s ∷ after
      → length a.out < a.capacity
      → Step a (record a { waiting = before ++ after; out = a.out ++ s ∷ [] })
  quits :
      {a : Acceptor} (before after : List ℕ) (s : ℕ)
      → a.waiting ≡ before ++ s ∷ after
      → a.done ≡ true
      → Step a (record a { waiting = before ++ after; dropped = s ∷ a.dropped })
  delivers :
      {a : Acceptor} (s : ℕ) (rest : List ℕ)
      → a.out ≡ s ∷ rest
      → Step a (record a { out = rest; delivered = a.delivered ++ s ∷ [] })
  -- `Close` of tcp and quic: `select { case <-s.done: default: close(s.done) }`, in two steps, as
  -- another goroutine may run between them.
  finds_closed : {a : Acceptor} → a.done ≡ true → Step a (record a { calls = suc a.calls })
  finds_open :
      {a : Acceptor}
      → a.done ≡ false
      → Step a (record a { closing = suc a.closing; calls = suc a.calls })
  closes_done :
      {a : Acceptor} (n : ℕ)
      → a.closing ≡ suc n
      → Step a (record a { closing = n; done = true; panicked = a.panicked || a.done })
  -- `Close` of ws and smux: `sync.Once` makes it one step.
  closes_once : {a : Acceptor} → Step a (record a { done = true; calls = suc a.calls })

pub data Reachable (n : ℕ) : Acceptor → Type 0 where
  start : Reachable n (new_acceptor n)
  next : {a b : Acceptor} → Reachable n a → Step a b → Reachable n b
