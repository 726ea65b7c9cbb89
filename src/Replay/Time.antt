-- ===== src/Replay/Time.antt =====
-- Go's time arithmetic as pkg/replay/bloom.go uses it. A duration is an int64 of nanoseconds.
use avangard_private.Common.{
  ℕ, ◌+◌, ◌-◌, ◌*◌, ◌/◌, ◌%◌, ◌^◌, ◌≤◌, ◌<◌, ◌≡◌, Bool, false, ◌||◌, [], ◌∷◌, Bytes, ltb, leb, ◌==◌,
  if◌then◌else◌, arith,
}
use Prim.Native.Nat.{min}

-- `negsuc n` is -(n + 1).
pub data ℤ : Type 0 where
  pos : ℕ → ℤ
  negsuc : ℕ → ℤ

abbrev pub max_duration : ℕ
max_duration = 2 ^ 63 - 1

-- `t.Sub(u)`, which stops at the largest and the smallest duration.
unfoldable pub sub : ℕ → ℕ → ℤ
sub t u = if leb u t then pos (min (t - u) max_duration) else negsuc (min (u - t - 1) max_duration)

-- `abs`: the negation of the smallest int64 is itself.
unfoldable pub abs : ℤ → ℤ
abs (pos n) = pos n
abs (negsuc n) = if n == max_duration then negsuc n else pos (n + 1)

-- `d > skew`, for a skew that is not negative.
unfoldable pub longer : ℤ → ℕ → Bool
longer (pos n) skew = ltb skew n
longer (negsuc n) skew = false

-- The Unix epoch, in nanoseconds since the zero time.
abbrev pub epoch : ℕ
epoch = 62135596800 * 10 ^ 9

-- `uint64(ts.UnixNano())`
unfoldable pub unix_nano : ℕ → ℕ
unix_nano ts = (ts + (2 ^ 64 - epoch % 2 ^ 64)) % 2 ^ 64

-- `binary.BigEndian.PutUint64`
unfoldable pub big_endian64 : ℕ → Bytes
big_endian64 n =
    n / 2 ^ 56 % 256
    ∷ n / 2 ^ 48 % 256
    ∷ n / 2 ^ 40 % 256
    ∷ n / 2 ^ 32 % 256
    ∷ n / 2 ^ 24 % 256
    ∷ n / 2 ^ 16 % 256
    ∷ n / 2 ^ 8 % 256
    ∷ n % 256
    ∷ []

-- With a skew below the largest duration, the skew check finds out whether the two times are further
-- apart than the skew, if the client's is less than 2^63 nanoseconds (292 years) ahead.
pub longer_iff :
    (now ts skew : ℕ)
    → skew < max_duration
    → ts < now + 2 ^ 63
    → longer (abs (sub now ts)) skew ≡ (ltb (ts + skew) now || ltb (now + skew) ts)
unfolding sub abs longer
longer_iff now ts skew h k = ground arith

-- Any time further ahead passes the check: its distance is the smallest duration, which has no
-- absolute value.
pub longer_far : (now ts skew : ℕ) → now + 2 ^ 63 ≤ ts → longer (abs (sub now ts)) skew ≡ false
unfolding sub abs longer
longer_far now ts skew h = ground arith
