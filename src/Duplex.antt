-- ===== src/Duplex.antt =====
-- An open duplex byte stream (`io.ReadWriter`), as one side sees it: the bytes that the peer still
-- sends before it closes, the bytes written so far, and the number of writes that still succeed.
use avangard_private.Common.{
  ℕ, zero, suc, ◌++◌, Bytes, Option, none, some, read_full, read_full_at, ◌≡◌, length, arith,
}

pub record Duplex : Type 0 where
  pub incoming : Bytes
  pub sent : Bytes
  pub writes_left : ℕ

-- A write that has `n` successful writes before the stream breaks.
abbrev write_left : ℕ → Bytes → Duplex → Option Duplex
write_left zero b d = none
write_left (suc n) b d = some (record d { sent = d.sent ++ b; writes_left = n })

unfoldable pub write : Bytes → Duplex → Option Duplex
write b d = write_left d.writes_left b d

-- `io.ReadFull` on the stream.
unfoldable pub read_n : ℕ → Duplex → Option (Bytes × Duplex)
read_n n d = elim (read_full n d.incoming) [
  | none ↦ none
  | some (xs, rest) ↦ some (xs, record d { incoming = rest })
]

pub write_lem :
    (b : Bytes) (d : Duplex) (n : ℕ)
    → d.writes_left ≡ suc n
    → write b d ≡ some (record d { sent = d.sent ++ b; writes_left = n })
unfolding write
write_lem b d n e = rw (e, write_left)

pub read_n_lem :
    (n : ℕ) (d : Duplex) (xs rest : Bytes)
    → d.incoming ≡ xs ++ rest
    → length xs ≡ n
    → read_n n d ≡ some (xs, record d { incoming = rest })
unfolding read_n
read_n_lem n d xs rest e l = ground (arith, read_full_at n xs rest l)

pub write-sent : (b : Bytes) (d d' : Duplex) → write b d ≡ some d' → d'.sent ≡ d.sent ++ b
unfolding write
write-sent b d d' h = ground arith
