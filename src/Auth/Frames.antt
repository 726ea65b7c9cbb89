-- ===== src/Auth/Frames.antt =====
-- pkg/auth/noise.go, `writeFrame` and `readFrame`: messages behind a length of two bytes.
use mathlib.Core.List.{append_assoc}
use avangard_private.Common.{
  ℕ, suc, ◌+◌, ◌*◌, ◌/◌, ◌%◌, ◌≤◌, ◌<◌, ◌≡◌, refl, ◌||◌, not, [], ◌∷◌, ◌++◌, Bytes, length, get_or,
  ltb, ◌==◌, Result, ok, err, ◌>>=◌, ◌>>◌, guard, or_fail, arith,
}
use avangard_private.Duplex.{Duplex, write, read_n, write_lem, read_n_lem}

pub data FrameError : Type 0 where
  frame_too_large write_failed read_failed : FrameError
  bad_frame_size : ℕ → FrameError

abbrev pub max_frame : ℕ
max_frame = 65535

unfoldable pub write_frame : Bytes → Duplex → Result FrameError Duplex
write_frame b w = do
  guard (not (ltb max_frame (length b))) frame_too_large
  w' ← or_fail (write (length b / 256 % 256 ∷ length b % 256 ∷ []) w) write_failed
  or_fail (write b w') write_failed

unfoldable pub read_frame : Duplex → Result FrameError (Bytes × Duplex)
read_frame r = do
  (hdr, r') ← or_fail (read_n 2 r) read_failed
  let n = get_or hdr 0 0 * 256 + get_or hdr 1 0
  guard (not (n == 0 || ltb max_frame n)) (bad_frame_size n)
  or_fail (read_n n r') read_failed

-- The bytes of one frame.
abbrev pub frame : Bytes → Bytes
frame b = length b / 256 % 256 ∷ length b % 256 ∷ b

-- Of a message of at most 65535 bytes `writeFrame` sends the frame, in the first two of the writes that
-- still succeed.
pub write_frame-frame :
    (b : Bytes) (w : Duplex) (n : ℕ)
    → length b ≤ max_frame
    → w.writes_left ≡ suc (suc n)
    → write_frame b w ≡ ok (record w { sent = w.sent ++ frame b; writes_left = n })
unfolding write_frame
write_frame-frame b w n h e =
    let hdr = length b / 256 % 256 ∷ length b % 256 ∷ [] in
    let w' = record w { sent = w.sent ++ hdr; writes_left = suc n } in
    ground (arith, write_lem hdr w (suc n) e, write_lem b w' n refl, append_assoc w.sent hdr b)

-- `readFrame` reads back the frame of a message of 1 to 65535 bytes, and leaves what follows it.
pub read_frame-frame :
    (b rest : Bytes) (r : Duplex)
    → 0 < length b
    → length b ≤ max_frame
    → r.incoming ≡ frame b ++ rest
    → read_frame r ≡ ok (b, record r { incoming = rest })
unfolding read_frame
read_frame-frame b rest r h k e =
    let hdr = length b / 256 % 256 ∷ length b % 256 ∷ [] in
    ground (
      arith,
      read_n_lem 2 r hdr (b ++ rest) e refl,
      read_n_lem (length b) (record r { incoming = b ++ rest }) b rest refl refl,
    )

-- An empty message, which `writeFrame` sends, is refused by `readFrame`.
read_frame_empty :
    (rest : Bytes) (r : Duplex)
    → r.incoming ≡ frame [] ++ rest
    → read_frame r ≡ err (bad_frame_size 0)
unfolding read_frame
read_frame_empty rest r e = ground (arith, read_n_lem 2 r (0 ∷ 0 ∷ []) rest e refl)
