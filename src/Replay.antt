-- ===== src/Replay.antt =====
-- pkg/replay/bloom.go: the filter against replayed 0-RTT payloads, two bloom filters that rotate.
-- Times are nanoseconds since Go's zero time (1 January of year 1); SHA-256 is a parameter. Calls
-- of `Check` run one after another here; Concurrent.antt interleaves them.
pub mod Time
pub mod Bloom
pub mod Remembers
pub mod NeverTwice
pub mod FarFuture
pub mod Concurrent
use avangard_private.Common.{ℕ, ◌+◌, Bool, true, false, ◌||◌, Bytes, ◌++◌, leb, ◌==◌, if◌then◌else◌}
use avangard_private.Bitset.{round_up}
use Time.{sub, abs, longer, unix_nano, big_endian64}
use Bloom.{BloomFilter, new_bloom, add, contains}

-- `hashes` and the durations are not negative; zero asks for the default.
pub record Options : Type 0 where
  pub bits : ℕ
  pub hashes : ℕ
  pub clock_skew : ℕ
  pub rotate_rate : ℕ

abbrev pub default_bits : ℕ
default_bits = 268435456

abbrev pub default_hashes : ℕ
default_hashes = 7

abbrev pub default_clock_skew : ℕ
default_clock_skew = 5000000000

abbrev pub default_rotate_rate : ℕ
default_rotate_rate = 60000000000

pub record Filter : Type 0 where
  pub bits : ℕ
  pub hashes : ℕ
  pub skew : ℕ
  pub rotate_rate : ℕ
  pub curr : BloomFilter
  pub prev : BloomFilter
  pub rotate_at : ℕ

pub data Verdict : Type 0 where
  fresh replay skewed : Verdict

abbrev or_default : ℕ → ℕ → ℕ
or_default v d = if v == 0 then d else v

-- `New` at the time `now`.
unfoldable pub new_filter : Options → ℕ → Filter
unfolding new_bloom round_up
new_filter opts now =
    let bits = round_up (or_default opts.bits default_bits) in
    let rotate_rate = or_default opts.rotate_rate default_rotate_rate in
    record {
      bits = bits;
      hashes = or_default opts.hashes default_hashes;
      skew = or_default opts.clock_skew default_clock_skew;
      rotate_rate = rotate_rate;
      curr = new_bloom bits;
      prev = new_bloom bits;
      rotate_at = now + rotate_rate;
    }

unfoldable pub maybe_rotate : Filter → ℕ → Filter
maybe_rotate f now =
    if leb f.rotate_at now
    then record f { prev = f.curr; curr = new_bloom f.bits; rotate_at = now + f.rotate_rate }
    else f

-- `f.curr.contains(key, f.hashes) || f.prev.contains(key, f.hashes)`
unfoldable pub seen : Filter → Bytes → Bool
seen f key = contains f.curr key f.hashes || contains f.prev key f.hashes

-- The part of `Check` under the write lock.
unfoldable pub commit : Filter → Bytes → Filter × Verdict
commit f key =
    if seen f key then (f, replay) else (record f { curr = add f.curr key f.hashes }, fresh)

-- The part behind the skew check: the rotation, the look under the read lock, the write lock.
unfoldable pub check_key : Filter → ℕ → Bytes → Filter × Verdict
check_key f now key =
    let f' = maybe_rotate f now in if seen f' key then (f', replay) else commit f' key

module _ (sha256 : Bytes → Bytes) where
  unfoldable pub digest : ℕ → Bytes → Bytes
  digest ts nonce = sha256 (big_endian64 (unix_nano ts) ++ nonce)

  unfoldable pub check : Filter → ℕ → ℕ → Bytes → Filter × Verdict
  check f now client_ts nonce =
      if longer (abs (sub now client_ts)) f.skew
      then (f, skewed)
      else check_key f now (digest client_ts nonce)
