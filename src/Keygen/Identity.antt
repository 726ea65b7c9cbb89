-- ===== src/Keygen/Identity.antt =====
-- cmd/avangard-server/main.go, `genUUID`: the identity is a text of bytes that is not empty.
use avangard_private.Common.{
  ℕ, zero, suc, ◌+◌, ◌/◌, ◌%◌, ◌<◌, ◌≡◌, false, [], ◌∷◌, ◌++◌, Bytes, IsBytes, IsBytes-append,
  IsBytes-take, IsBytes-drop, take, drop, length, ◌==◌, Option, none, some, arith,
}
use avangard_private.Keygen.{
  lower_hex, hex, update_at, clock_bytes, entropy, versioned, uuid_text, gen_uuid,
}

lower_hex-lt : (n : ℕ) → n < 16 → lower_hex n < 256
lower_hex-lt n h = ground (arith, h)

hex-IsBytes : (s : Bytes) → IsBytes s → IsBytes (hex s)
unfolding hex
hex-IsBytes [] h = tt
hex-IsBytes (b ∷ s) (lt, h) =
    (lower_hex-lt (b / 16) (omega arith), (lower_hex-lt (b % 16) (omega arith), hex-IsBytes s h))

update_at-IsBytes :
    (n : ℕ) (f : ℕ → ℕ) (s : Bytes) → ((x : ℕ) → f x < 256) → IsBytes s → IsBytes (update_at n f s)
update_at-IsBytes zero f [] w h = tt
update_at-IsBytes (suc n) f [] w h = tt
update_at-IsBytes zero f (b ∷ s) w (lt, h) = (w b, h)
update_at-IsBytes (suc n) f (b ∷ s) w (lt, h) = (lt, update_at-IsBytes n f s w h)

clock_bytes-IsBytes : (now i n : ℕ) → IsBytes (clock_bytes now i n)
unfolding clock_bytes
clock_bytes-IsBytes now i zero = tt
clock_bytes-IsBytes now i (suc n) = (omega arith, clock_bytes-IsBytes now (i + 1) n)

-- What `rand.Read` gives, if it gives anything, are bytes.
abbrev pub GivesBytes : Option Bytes → Type 0
GivesBytes none = Unit
GivesBytes (some b) = IsBytes b

entropy-IsBytes : (rand : Option Bytes) (now : ℕ) → GivesBytes rand → IsBytes (entropy rand now)
entropy-IsBytes none now h = clock_bytes-IsBytes now 0 16
entropy-IsBytes (some b) now h = h

piece-IsBytes : (n m : ℕ) (s : Bytes) → IsBytes s → IsBytes (hex (take n (drop m s)))
piece-IsBytes n m s h =
    hex-IsBytes (take n (drop m s)) (IsBytes-take n (drop m s) (IsBytes-drop m s h))

uuid_text-IsBytes : (b : Bytes) → IsBytes b → IsBytes (uuid_text b)
uuid_text-IsBytes b h = IsBytes-append (hex (take 4 b)) _ (piece-IsBytes 4 0 b h) (
  omega arith,
  IsBytes-append (hex (take 2 (drop 4 b))) _ (piece-IsBytes 2 4 b h) (
    omega arith,
    IsBytes-append (hex (take 2 (drop 6 b))) _ (piece-IsBytes 2 6 b h) (
      omega arith,
      IsBytes-append (hex (take 2 (drop 8 b))) _ (piece-IsBytes 2 8 b h)
          (omega arith, piece-IsBytes 6 10 b h),
    ),
  ),
)

pub gen_uuid-IsBytes :
    (rand : Option Bytes) (now : ℕ) → GivesBytes rand → IsBytes (gen_uuid rand now)
unfolding gen_uuid
gen_uuid-IsBytes rand now h =
    let six =
      update_at-IsBytes 6 (λ x. x % 16 + 64) (entropy rand now) (λ x. omega arith)
        (entropy-IsBytes rand now h) in
    uuid_text-IsBytes (versioned (entropy rand now))
      (update_at-IsBytes 8 (λ x. x % 64 + 128) _ (λ x. omega arith) six)

pub append-nonempty : (xs ys : Bytes) (y : ℕ) → (length (xs ++ y ∷ ys) == 0) ≡ false
append-nonempty [] ys y = ground arith
append-nonempty (x ∷ xs) ys y = ground arith

pub gen_uuid-nonempty : (rand : Option Bytes) (now : ℕ) → (length (gen_uuid rand now) == 0) ≡ false
unfolding gen_uuid
gen_uuid-nonempty rand now = append-nonempty (hex (take 4 (versioned (entropy rand now)))) _ b'-'
