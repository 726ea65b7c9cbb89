-- ===== src/RegionShield.antt =====
-- pkg/regionshield: `Select` and the regional profiles. A map by AS number is an association list.
pub mod Profiles
pub mod Selection
use avangard_private.Common.{
  ℕ, Bool, true, false, not, ◌&&◌, ◌||◌, List, [], ◌∷◌, Bytes, length, equal, ◌==◌, if◌then◌else◌,
  Option, none, some, codes,
}
use avangard_private.Autoprobe.{ProbeResult}
use avangard_private.Mode.{
  Mode, mode_auto, mode_yandex_cdn, mode_gosuslugi_ws, mode_split_dpi, mode_quic_camouflage,
  mode_dns_tunnel,
}

-- The mode is empty, and the port 0, where the rule leaves them open; `quic` may be nil.
pub record IspRule : Type 0 where
  pub preferred_mode : Mode
  pub port : ℕ
  pub extra_frag : Bool
  pub ttl_manip : Bool
  pub quic : Option Bool

pub record Profile : Type 0 where
  pub region : Bytes
  pub fallback_chain : List Mode
  pub isp_overrides : List (ℕ × IspRule)
  pub relays : List Bytes
  pub ipv6_priority : Bool

pub record SelectorInput : Type 0 where
  pub profile : Profile
  pub asn : ℕ
  pub probe : ProbeResult

pub data Reason : Type 0 where
  isp_override chain last_resort : Reason

pub record Decision : Type 0 where
  pub mode : Mode
  pub port : ℕ
  pub reason : Reason

unfoldable pub find_rule : ℕ → List (ℕ × IspRule) → Option IspRule
find_rule asn [] = none
find_rule asn ((a, r) ∷ rules) = if a == asn then some r else find_rule asn rules

unfoldable pub is_viable : Mode → ProbeResult → Bool
is_viable m r =
    if equal m mode_quic_camouflage
    then r.udp443.is_ok
    else if equal m mode_yandex_cdn || equal m mode_gosuslugi_ws || equal m mode_split_dpi
    then r.tcp443.is_ok
    else if equal m mode_dns_tunnel
    then true
    else if equal m mode_auto
    then r.tcp443.is_ok || r.udp443.is_ok
    else false

-- The loop over the fallback chain, and what follows it.
unfoldable pub walk_chain : List Mode → ProbeResult → Decision
walk_chain [] probe = record { mode = mode_dns_tunnel; port = 443; reason = last_resort }
walk_chain (m ∷ ms) probe =
    let rest = walk_chain ms probe in
    if is_viable m probe then record { mode = m; port = 443; reason = chain } else rest

abbrev overridden : Option IspRule → Decision → Decision
overridden none d = d
overridden (some rule) d =
    if not (length rule.preferred_mode == 0)
    then record {
      mode = rule.preferred_mode;
      port = if not (rule.port == 0) then rule.port else 443;
      reason = isp_override;
    }
    else d

unfoldable pub select : SelectorInput → Decision
select i =
    overridden (find_rule i.asn i.profile.isp_overrides)
      (walk_chain i.profile.fallback_chain i.probe)
