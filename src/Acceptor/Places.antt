-- ===== src/Acceptor/Places.antt =====
-- pkg/transport: where a server's streams are.
use avangard_private.Common.{
  ℕ, suc, ◌+◌, ◌≤◌, ◌≡◌, refl, ap, List, [], ◌∷◌, ◌++◌, length, length-append, ◌==◌, if◌then◌else◌,
  true, ◌⊎◌, inl, inr, arith,
}
use avangard_private.Acceptor.{
  Acceptor, new_acceptor, Step, authenticates, sends, quits, delivers, finds_closed, finds_open,
  closes_done, closes_once, Reachable, start, next,
}

-- How often a stream stands in a list.
unfoldable pub count : ℕ → List ℕ → ℕ
count s [] = 0
count s (x ∷ xs) = let rest = count s xs in if x == s then suc rest else rest

count-append : (s : ℕ) (xs ys : List ℕ) → count s (xs ++ ys) ≡ count s xs + count s ys
unfolding count
count-append s [] ys = omega arith
count-append s (x ∷ xs) ys = ground (arith, count-append s xs ys)

-- Taking one element out of a list.
count-split :
    (s x : ℕ) (xs before after : List ℕ)
    → xs ≡ before ++ x ∷ after
    → count s xs ≡ count s (before ++ after) + count s (x ∷ [])
unfolding count
count-split s x xs before after e =
    ground (arith, ap (count s) e, count-append s before (x ∷ after), count-append s before after)

-- The places where a stream can be.
abbrev pub placed : ℕ → Acceptor → ℕ
placed s a = count s a.waiting + count s a.out + count s a.delivered + count s a.dropped

abbrev pub Kept : ℕ → Acceptor → Type 0
Kept s a = count s a.accepted ≡ placed s a

Step-Kept : {a b : Acceptor} (s : ℕ) → Step a b → Kept s a → Kept s b
unfolding count
Step-Kept {a} s (authenticates x) k = ground (arith, k, count-append s a.accepted (x ∷ []))
Step-Kept {a} s (sends before after x w lt) k =
    ground (arith, k, count-split s x a.waiting before after w, count-append s a.out (x ∷ []))
Step-Kept {a} s (quits before after x w d) k =
    ground (arith, k, count-split s x a.waiting before after w)
Step-Kept {a} s (delivers x rest e) k =
    ground (arith, k, ap (count s) e, count-append s a.delivered (x ∷ []))
Step-Kept {a} s (finds_closed d) k = k
Step-Kept {a} s (finds_open d) k = k
Step-Kept {a} s (closes_done n c) k = k
Step-Kept {a} s closes_once k = k

Reachable-Kept : {n : ℕ} {a : Acceptor} (s : ℕ) → Reachable n a → Kept s a
unfolding count new_acceptor
Reachable-Kept s start = omega arith
Reachable-Kept s (next r st) = Step-Kept s st (Reachable-Kept s r)

-- The buffer, and when a handler gives up.
record Shape (n : ℕ) (a : Acceptor) : Type 0 where
  same : a.capacity ≡ n
  room : length a.out ≤ n
  late : (a.dropped ≡ []) ⊎ (a.done ≡ true)

Step-Shape : {n : ℕ} {a b : Acceptor} → Step a b → Shape n a → Shape n b
Step-Shape {n} {a} (authenticates x) k = record { same = k.same; room = k.room; late = k.late }
Step-Shape {n} {a} (sends before after x w lt) k = record {
  same = k.same;
  room = omega (arith, k.same, lt, length-append a.out (x ∷ []));
  late = k.late;
}
Step-Shape {n} {a} (quits before after x w d) k = record {
  same = k.same;
  room = k.room;
  late = inr d;
}
Step-Shape {n} {a} (delivers x rest e) k = record {
  same = k.same;
  room = omega (arith, k.room, ap length e);
  late = k.late;
}
Step-Shape (finds_closed d) k = record { same = k.same; room = k.room; late = k.late }
Step-Shape (finds_open d) k = record { same = k.same; room = k.room; late = k.late }
Step-Shape (closes_done m c) k = record { same = k.same; room = k.room; late = inr refl }
Step-Shape closes_once k = record { same = k.same; room = k.room; late = inr refl }

Reachable-Shape : {n : ℕ} {a : Acceptor} → Reachable n a → Shape n a
unfolding new_acceptor
Reachable-Shape start = record { same = refl; room = omega arith; late = inl refl }
Reachable-Shape (next r s) = Step-Shape s (Reachable-Shape r)

-- In every state that can be reached, each stream that passed its handshake is, as often as it did, in
-- one of four places: with its handler, in the channel, returned by `Accept`, or closed by its handler.
-- The channel never holds more than its size, and no handler has closed a stream before the server was
-- closed.
pub streams_placed :
    {n : ℕ} {a : Acceptor}
    → Reachable n a
    → ((s : ℕ) → count s a.accepted ≡ placed s a)
      × (length a.out ≤ n)
      × ((a.dropped ≡ []) ⊎ (a.done ≡ true))
streams_placed r = let k = Reachable-Shape r in ((λ s. Reachable-Kept s r), k.room, k.late)
