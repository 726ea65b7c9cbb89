-- ===== src/Client/Regions.antt =====
-- cmd/avangard-client/main.go: the decision that the region command prints.
use avangard_private.Common.{
  ℕ, ◌≡◌, ◌↔◌, ◌<◌, ◌^◌, All, refl, ap, List, [], ◌∷◌, Bytes, some, Result, ok, err, arith,
}
use avangard_private.Autoprobe.{ProbeStatus, ProbeResult}
use avangard_private.Autoprobe.Probes.{
  DialAnswer, on_udp443, on_tcp443, targets, Started, started, goroutines, default_config,
}
use avangard_private.Autoprobe.Distinct.{NoRepeats, Has}
use avangard_private.Autoprobe.Store.{whole}
use avangard_private.Autoprobe.AnyOrder.{outcome, run_any_order}
use avangard_private.Mode.{Mode}
use avangard_private.RegionShield.{Profile, is_viable, walk_chain, select}
use avangard_private.Client.{CommandError, region_profile, decide, region_command}

is_viable_same :
    (m : Mode) (r q : ProbeResult)
    → r.udp443 ≡ q.udp443
    → r.tcp443 ≡ q.tcp443
    → is_viable m r ≡ is_viable m q
unfolding is_viable
is_viable_same m r q u t = rw (u, t) refl

walk_chain_same :
    (ms : List Mode) (r q : ProbeResult)
    → r.udp443 ≡ q.udp443
    → r.tcp443 ≡ q.tcp443
    → walk_chain ms r ≡ walk_chain ms q
unfolding walk_chain
walk_chain_same [] r q u t = refl
walk_chain_same (m ∷ ms) r q u t = rw (is_viable_same m r q u t, walk_chain_same ms r q u t) refl

decide_same :
    (asn : ℕ) (r q : ProbeResult) (prof : Result CommandError Profile)
    → r.udp443 ≡ q.udp443
    → r.tcp443 ≡ q.tcp443
    → decide asn r prof ≡ decide asn q prof
unfolding select
decide_same asn r q (err e) u t = refl
decide_same asn r q (ok prof) u t = rw (walk_chain_same prof.fallback_chain r q u t) refl

whole-injective : (x y : ProbeStatus) → some (whole x) ≡ some (whole y) → x ≡ y
whole-injective x y e = cc

module _ (dial : ℕ → ℕ → Bytes → Bytes → DialAnswer) where
  -- Nothing but what the probes of port 443 found, which are started first.
  abbrev pub on_443 : Bytes → ProbeResult
  on_443 host = record {
    udp443 = outcome dial (default_config host) (record { number = 0; target = on_udp443 });
    tcp443 = outcome dial (default_config host) (record { number = 1; target = on_tcp443 });
    tcp_alt = [];
    rtts = [];
  }

  default_ports : (host : Bytes) → All (λ p. p < 10 ^ 10) (default_config host).alt_tcp_ports
  unfolding default_config
  default_ports host = (omega arith, (omega arith, (omega arith, (omega arith, tt))))

  default_ports-NoRepeats : (host : Bytes) → NoRepeats (default_config host).alt_tcp_ports
  unfolding default_config
  default_ports-NoRepeats host = omega arith

  default_refs-NoRepeats : (host : Bytes) → NoRepeats (default_config host).rtt_refs
  unfolding default_config
  default_refs-NoRepeats host = (((λ e. absurd (cc)), tt), (tt, tt))

  -- The region command never panics, and the decision that it prints depends only on the region, the AS
  -- number and what the probes of port 443 found, whatever the order in which the probes finish.
  pub region_command_any_order :
      (schedule : List Started → List Started) (region host : Bytes) (asn : ℕ)
      → ((u : Started)
          → Has u (schedule (goroutines (default_config host)))
            ↔ Has u (goroutines (default_config host)))
      → region_command dial schedule region asn host
        ≡ some (decide asn (on_443 host) (region_profile region))
  unfolding region_command targets started
  region_command_any_order schedule region host asn same =
      let cfg = default_config host in
      let (r, e, f, g) =
        run_any_order dial schedule cfg same (default_ports host) (default_ports-NoRepeats host)
          (default_refs-NoRepeats host) in
      let u : r.udp443 ≡ (on_443 host).udp443 = whole-injective r.udp443 (on_443 host).udp443 f.0 in
      let t : r.tcp443 ≡ (on_443 host).tcp443 =
        whole-injective r.tcp443 (on_443 host).tcp443 f.1.0 in
      rw e (ap some (decide_same asn r (on_443 host) (region_profile region) u t))
