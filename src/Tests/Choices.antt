-- ===== src/Tests/Choices.antt =====
-- The choices of a client: pkg/regionshield, pkg/utlsx, pkg/config, pkg/autoprobe, and a SOCKS request.
use avangard_private.Common.{
  arith, ◌≡◌, ◌↔◌, ◌↔◌, refl, true, false, [], ◌∷◌, ◌++◌, some, ok, codes,
}
use avangard_private.Net.{join_host_port, decimal}
use avangard_private.Mode.{mode_split_dpi}
use avangard_private.Autoprobe.{ProbeStatus}
use avangard_private.RegionShield.{
  SelectorInput, Decision, select, find_rule, is_viable, walk_chain, isp_override,
}
use avangard_private.RegionShield.Profiles.{default_ru_profile}
use avangard_private.RegionShield.Selection.{Selected, select_iff}
use avangard_private.Socks.{writes, dials, relays, reply, handle_socks}
use avangard_private.Socks.Connect.{greeting, connect_name, handle_socks_connect}
use avangard_private.Config.{ServerConfig, validate_server, load_server}

abbrev down : ProbeStatus
down = record { is_ok = false; rtt = 0; err_msg = codes "timeout" }

abbrev input : SelectorInput
input = record {
  profile = default_ru_profile;
  asn = 8359;
  probe = record { udp443 = down; tcp443 = down; tcp_alt = []; rtts = [] };
}

abbrev mts : Decision
mts = record { mode = mode_split_dpi; port = 443; reason = isp_override }

select-mts : select input ≡ mts
unfolding select find_rule default_ru_profile walk_chain is_viable
select-mts = refl

handle_socks_connect_example :
    handle_socks
      (λ ip. ip)
      (λ dest. true)
      true
      (greeting (0 ∷ []) ++ connect_name (codes "ab") 80 (codes "GET"))
    ≡ writes (5 ∷ 0 ∷ [])
      ∷ dials (join_host_port (codes "ab") (decimal 80))
      ∷ writes (reply 0)
      ∷ relays (codes "GET")
      ∷ []
handle_socks_connect_example =
    handle_socks_connect (λ ip. ip) (λ dest. true) (0 ∷ []) (codes "ab") (codes "GET") 80
      (omega arith)

abbrev tcp_only : ServerConfig
tcp_only = record {
  listen = record { quic = []; tcp = codes ":443" };
  decoy = record { domain = codes "ya.ru"; addr = codes "ya.ru:443" };
  tls = record { cert_file = codes "c"; key_file = codes "k" };
  auth = record { static_privkey_b64 = codes "AA"; accepted_uuids = codes "u-1" ∷ [] };
  log_level = codes "info";
}

load_run :
    load_server (λ path. some (codes "yaml")) (λ b. some tcp_only) (codes "server.yaml")
    ≡ ok tcp_only
unfolding load_server validate_server
load_run = refl

select_iff_example : Selected input mts ↔ (mts ≡ select input)
select_iff_example = select_iff input mts
