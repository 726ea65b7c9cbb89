-- ===== src/WsStream/Bytestream.antt =====
-- pkg/transport/ws/ws.go, `wsStream`: the reads give the bytes of the messages, whatever the buffers.
use Prim.Native.Nat.{min}
use mathlib.Core.List.{append_assoc, append-nil}
use avangard_private.Common.{
  ℕ, ◌+◌, ◌<◌, ◌≡◌, ◌∙◌, ◌⊎◌, refl, sym, ap, List, [], ◌∷◌, ◌++◌, Bytes, length, length-append,
  length-drop, take, drop, take-append-drop, none, some, Option-cases, inl, inr, arith,
}
use avangard_private.WsStream.{WsStream, copy_out, refill, read_from, ws_read, ws_write}

abbrev pub flatten : List Bytes → Bytes
flatten [] = []
flatten (m ∷ ms) = m ++ flatten ms

-- The bytes that a reader still gets.
abbrev pub unread : WsStream → Bytes
unread s = s.read_buf ++ flatten s.conn.messages

copy_out-unread : (n : ℕ) (s : WsStream) → (copy_out n s).0 ++ unread (copy_out n s).1 ≡ unread s
copy_out-unread n s =
    let k = min n (length s.read_buf) in
    sym (append_assoc (take k s.read_buf) (drop k s.read_buf) _)
    ∙ ap (λ x. x ++ flatten s.conn.messages) (take-append-drop k s.read_buf)

refill-unread :
    (n : ℕ) (ms : List Bytes) (s s' : WsStream) (out : Bytes)
    → s.read_buf ≡ []
    → s.conn.messages ≡ ms
    → refill n ms s ≡ some (out, s')
    → out ++ unread s' ≡ unread s
refill-unread n [] s s' out e m h = cc
refill-unread n (msg ∷ ms) s s' out e m h =
    let t = record s { conn = record s.conn { messages = ms }; read_buf = msg } in
    let same : copy_out n t ≡ (out, s') = cc in
    ap (λ r. r.0 ++ unread r.1) (sym same) ∙ copy_out-unread n t ∙ rw (e, m) refl

read_from-unread :
    (n : ℕ) (buf : Bytes) (s s' : WsStream) (out : Bytes)
    → s.read_buf ≡ buf
    → read_from n buf s ≡ some (out, s')
    → out ++ unread s' ≡ unread s
read_from-unread n [] s s' out e h = refill-unread n s.conn.messages s s' out e refl h
read_from-unread n (x ∷ buf) s s' out e h =
    let same : copy_out n s ≡ (out, s') = cc in
    ap (λ r. r.0 ++ unread r.1) (sym same) ∙ copy_out-unread n s

-- Reads with these buffers, up to the first error.
unfoldable pub ws_read_all : List ℕ → WsStream → Bytes × WsStream
ws_read_all [] s = ([], s)
ws_read_all (n ∷ ns) s = elim (ws_read n s) [
  | none ↦ ([], s)
  | some (out, s') ↦ let (more, t) = ws_read_all ns s' in (out ++ more, t)
]

unfoldable pub ws_write_all : List Bytes → WsStream → WsStream
ws_write_all [] s = s
ws_write_all (p ∷ ps) s = ws_write_all ps (ws_write p s)

ws_read_all-unread :
    (ns : List ℕ) (s : WsStream) → (ws_read_all ns s).0 ++ unread (ws_read_all ns s).1 ≡ unread s
unfolding ws_read_all ws_read
ws_read_all-unread [] s = refl
ws_read_all-unread (n ∷ ns) s = elim (Option-cases (read_from n s.read_buf s)) [
  | inl e ↦ rw (e, ws_read_all) refl
  | inr (x, e) ↦
      let rest = ws_read_all ns x.1 in
      rw (e, ws_read_all)
        (append_assoc x.0 rest.0 (unread rest.1)
          ∙ ap (λ y. x.0 ++ y) (ws_read_all-unread ns x.1)
          ∙ read_from-unread n s.read_buf s x.1 x.0 refl e)
]

ws_write_all-sent :
    (ps : List Bytes) (s : WsStream) → (ws_write_all ps s).conn.sent ≡ s.conn.sent ++ ps
unfolding ws_write_all ws_write
ws_write_all-sent [] s = sym (append-nil s.conn.sent)
ws_write_all-sent (p ∷ ps) s =
    ws_write_all-sent ps (ws_write p s) ∙ append_assoc s.conn.sent (p ∷ []) ps

-- What one side wrote, in any pieces, the other one reads, with any buffers: the bytes that its reads
-- gave so far, and those that they still give, are the pieces in order.
pub ws_read_all-ws_write_all :
    (ps : List Bytes) (ns : List ℕ) (a b : WsStream)
    → a.conn.sent ≡ []
    → b.read_buf ≡ []
    → b.conn.messages ≡ (ws_write_all ps a).conn.sent
    → (ws_read_all ns b).0 ++ unread (ws_read_all ns b).1 ≡ flatten ps
ws_read_all-ws_write_all ps ns a b e f m =
    ws_read_all-unread ns b
    ∙ ap (λ x. x ++ flatten b.conn.messages) f
    ∙ ap flatten (m ∙ ws_write_all-sent ps a ∙ ap (λ x. x ++ ps) e)

abbrev cost : WsStream → ℕ
cost s = length (unread s) + length s.conn.messages

copy_out-cost :
    (n : ℕ) (s : WsStream) → 0 < n → 0 < length s.read_buf → cost (copy_out n s).1 < cost s
copy_out-cost n s h k =
    let m = min n (length s.read_buf) in
    omega (
      arith,
      length-drop m s.read_buf,
      length-append (drop m s.read_buf) (flatten s.conn.messages),
      length-append s.read_buf (flatten s.conn.messages),
    )

refilled-cost :
    (n : ℕ) (msg : Bytes) (ms : List Bytes) (s : WsStream)
    → s.conn.messages ≡ msg ∷ ms
    → cost (copy_out n (record s { conn = record s.conn { messages = ms }; read_buf = msg })).1
      < cost s
refilled-cost n msg ms s e =
    let m = min n (length msg) in
    omega (
      arith,
      length-drop m msg,
      length-append (drop m msg) (flatten ms),
      length-append msg (flatten ms),
      ap length e,
      ap (λ x. length (flatten x)) e,
      length-append s.read_buf (flatten s.conn.messages),
    )

refill-progress :
    (n : ℕ) (ms : List Bytes) (s : WsStream)
    → s.read_buf ≡ []
    → s.conn.messages ≡ ms
    → ((refill n ms s ≡ none) × (unread s ≡ []) × (s.conn.messages ≡ []))
      ⊎ ((out : Bytes) × (s' : WsStream) × (refill n ms s ≡ some (out, s')) × (cost s' < cost s))
refill-progress n [] s e m = inl (refl, rw (e, m) refl, m)
refill-progress n (msg ∷ ms) s e m = inr (_, _, refl, refilled-cost n msg ms s m)

read_from-progress :
    (n : ℕ) (buf : Bytes) (s : WsStream)
    → s.read_buf ≡ buf
    → 0 < n
    → ((read_from n buf s ≡ none) × (unread s ≡ []) × (s.conn.messages ≡ []))
      ⊎ ((out : Bytes) × (s' : WsStream) × (read_from n buf s ≡ some (out, s'))
          × (cost s' < cost s))
read_from-progress n [] s e h = refill-progress n s.conn.messages s e refl
read_from-progress n (x ∷ buf) s e h =
    inr (_, _, refl, copy_out-cost n s h (omega (arith, ap length e)))

-- With room in its buffer, a read fails only where all messages were read, and otherwise it leaves
-- fewer bytes and messages than there were.
pub ws_read_progress :
    (n : ℕ) (s : WsStream)
    → 0 < n
    → ((ws_read n s ≡ none) × (unread s ≡ []) × (s.conn.messages ≡ []))
      ⊎ ((out : Bytes) × (s' : WsStream) × (ws_read n s ≡ some (out, s'))
          × (length (unread s') + length s'.conn.messages
              < length (unread s) + length s.conn.messages))
unfolding ws_read
ws_read_progress n s h = read_from-progress n s.read_buf s refl h
