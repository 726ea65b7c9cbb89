-- ===== src/TcpServer/Replayed.antt =====
-- pkg/transport/tcp/server.go, `peekConn`: the reads give the peeked bytes and then the connection's.
use Prim.Native.Nat.{min}
use mathlib.Core.List.{append_assoc}
use avangard_private.Common.{
  ℕ, ◌≡◌, ◌∙◌, refl, sym, ap, List, [], ◌∷◌, ◌++◌, Bytes, length, empty, take-append-drop, ltb,
  Bool-cases, inl, inr, arith,
}
use avangard_private.TcpServer.{PeekConn, peek_read}

-- The bytes that a reader still gets.
abbrev pub pending : PeekConn → Bytes
pending p = p.replay ++ p.conn

peek_read-pending :
    (n ready : ℕ) (p : PeekConn)
    → (peek_read n ready p).0 ++ pending (peek_read n ready p).1 ≡ pending p
unfolding peek_read
peek_read-pending n ready p = elim (Bool-cases (ltb 0 (length p.replay))) [
  | inl e ↦ rw e (
      sym (append_assoc _ _ p.conn)
      ∙ ap (λ x. x ++ p.conn) (take-append-drop (min n (length p.replay)) p.replay))
  | inr e ↦ rw e (rw (empty p.replay (ground arith)) (take-append-drop (min n ready) p.conn))
]

-- A sequence of reads: the buffer sizes, and what the connection has at hand.
unfoldable pub read_all : List (ℕ × ℕ) → PeekConn → Bytes × PeekConn
read_all [] p = ([], p)
read_all ((n, ready) ∷ rs) p =
    let (out, p') = peek_read n ready p in let (more, q) = read_all rs p' in (out ++ more, q)

-- However it is read, the reader gets the peeked bytes and then the connection's, each byte once and
-- in order.
pub read_all-pending :
    (rs : List (ℕ × ℕ)) (p : PeekConn)
    → (read_all rs p).0 ++ pending (read_all rs p).1 ≡ p.replay ++ p.conn
unfolding read_all
read_all-pending [] p = refl
read_all-pending ((n, ready) ∷ rs) p =
    let now = peek_read n ready p in
    let later = read_all rs now.1 in
    append_assoc now.0 later.0 (pending later.1)
    ∙ ap (λ x. now.0 ++ x) (read_all-pending rs now.1)
    ∙ peek_read-pending n ready p
