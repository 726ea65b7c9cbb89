-- ===== src/Autoprobe/Probes.antt =====
-- pkg/autoprobe/probe.go, `Run`: the probes, and the result that they fill in. Each goroutine stores its
-- outcome under a mutex, in whatever order they finish. Parameters: the answer that each goroutine's
-- dial gets and the time that it takes, and the order, as a function of the started goroutines. The times
-- of the run are left out.
use avangard_private.Common.{
  ℕ, ◌+◌, Bool, true, false, List, [], ◌∷◌, ◌++◌, Bytes, map, equal, ◌==◌, if◌then◌else◌, Option,
  none, some, codes,
}
use avangard_private.Net.{join_host_port}
use avangard_private.Autoprobe.{ProbeStatus, ProbeResult, itoa}

-- `Config`; the timeout is in milliseconds.
pub record ProbeConfig : Type 0 where
  pub server_host : Bytes
  pub alt_tcp_ports : List ℕ
  pub rtt_refs : List Bytes
  pub timeout : ℕ

unfoldable pub default_config : Bytes → ProbeConfig
default_config server_host = record {
  server_host = server_host;
  alt_tcp_ports = 8443 ∷ 2053 ∷ 2087 ∷ 2096 ∷ [];
  rtt_refs = codes "1.1.1.1:443" ∷ codes "ya.ru:443" ∷ [];
  timeout = 800;
}

-- What `DialContext` gives: an error's text, or nothing; and the time since `start`.
pub record DialAnswer : Type 0 where
  pub error : Option Bytes
  pub elapsed : ℕ

-- `tcpUDPProbe`, behind the dial.
unfoldable pub tcp_udp_probe : DialAnswer → ProbeStatus
tcp_udp_probe a = elim a.error [
  | none ↦ record { is_ok = true; rtt = a.elapsed; err_msg = [] }
  | some e ↦ record { is_ok = false; rtt = a.elapsed; err_msg = e }
]

-- What a goroutine probes, and so where it stores its outcome.
pub data Target : Type 0 where
  on_udp443 on_tcp443 : Target
  on_alt : ℕ → Target
  on_ref : Bytes → Target

unfoldable pub targets : ProbeConfig → List Target
targets cfg = on_udp443 ∷ on_tcp443 ∷ (map on_alt cfg.alt_tcp_ports ++ map on_ref cfg.rtt_refs)

-- A goroutine, by its number in the order of starting.
pub record Started : Type 0 where
  pub number : ℕ
  pub target : Target

unfoldable pub started : ℕ → List Target → List Started
started i [] = []
started i (t ∷ ts) = record { number = i; target = t } ∷ started (i + 1) ts

-- The goroutines of `Run`.
abbrev pub goroutines : ProbeConfig → List Started
goroutines cfg = started 0 (targets cfg)

abbrev pub network : Target → Bytes
network on_udp443 = codes "udp"
network t = codes "tcp"

-- A port that `itoa` has no room for is a panic.
abbrev alt_address : Bytes → Option Bytes → Option Bytes
alt_address host none = none
alt_address host (some digits) = some (join_host_port host digits)

abbrev pub address : Bytes → Target → Option Bytes
address host on_udp443 = some (join_host_port host (codes "443"))
address host on_tcp443 = some (join_host_port host (codes "443"))
address host (on_alt p) = alt_address host (itoa p)
address host (on_ref ref) = some ref

-- `m[k] = v`, where `same` compares keys.
abbrev pub put : {K V : Type 0} → (K → K → Bool) → K → V → List (K × V) → List (K × V)
put same k v [] = (k, v) ∷ []
put same k v ((a, w) ∷ m) =
    let rest = put same k v m in if same a k then (k, v) ∷ m else (a, w) ∷ rest

abbrev pub store : Target → ProbeStatus → ProbeResult → ProbeResult
store on_udp443 st r = record r { udp443 = st }
store on_tcp443 st r = record r { tcp443 = st }
store (on_alt p) st r = record r { tcp_alt = put ◌==◌ p st r.tcp_alt }
store (on_ref ref) st r = record r { rtts = put equal ref st.rtt r.rtts }

abbrev pub zero_status : ProbeStatus
zero_status = record { is_ok = false; rtt = 0; err_msg = [] }

abbrev pub empty_result : ProbeResult
empty_result = record { udp443 = zero_status; tcp443 = zero_status; tcp_alt = []; rtts = [] }

-- `if cfg.Timeout == 0`
abbrev pub timeout_of : ProbeConfig → ℕ
timeout_of cfg = if cfg.timeout == 0 then 800 else cfg.timeout

-- `dial` is given the goroutine's number, the timeout, the network and the address.
module _ (dial : ℕ → ℕ → Bytes → Bytes → DialAnswer) where
  abbrev run_at :
      ProbeConfig
      → Started
      → Option Bytes
      → (ProbeResult → Option ProbeResult)
      → ProbeResult
      → Option ProbeResult
  run_at cfg u none k r = none
  run_at cfg u (some addr) k r =
      k (store u.target (tcp_udp_probe (dial u.number (timeout_of cfg) (network u.target) addr)) r)

  -- The goroutines, in the order in which they store.
  unfoldable pub store_all : ProbeConfig → List Started → ProbeResult → Option ProbeResult
  store_all cfg [] r = some r
  store_all cfg (u ∷ us) r =
      let later = store_all cfg us in run_at cfg u (address cfg.server_host u.target) later r

  unfoldable pub run : (List Started → List Started) → ProbeConfig → Option ProbeResult
  run schedule cfg = store_all cfg (schedule (goroutines cfg)) empty_result
