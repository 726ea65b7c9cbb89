-- ===== src/Client.antt =====
-- cmd/avangard-client/main.go: the region command, and the dialer of the tunnel and socks5 commands. Flags and
-- printing are left out.
pub mod Regions
pub mod Links
use avangard_private.Common.{
  ℕ, Bool, true, false, ◌∷◌, [], List, Bytes, equal, if◌then◌else◌, Option, none, some, Result, ok,
  err, codes, ◌>>=◌, ◌>>◌,
}
use avangard_private.Net.{join_host_port, decimal}
use avangard_private.Autoprobe.{ProbeResult}
use avangard_private.Autoprobe.Probes.{DialAnswer, Started, default_config, run}
use avangard_private.RegionShield.{Profile, Decision, select}
use avangard_private.RegionShield.Profiles.{
  default_ru_profile, default_ir_profile, default_cn_profile,
}
use avangard_private.Uri.{UriConfig, UriError, parse}
use avangard_private.Transport.{ClientConfig}
use avangard_private.Dialer.{Network, DialerError, new_client_config, new_quic_client}

pub data CommandError : Type 0 where
  unknown_region unknown_transport : CommandError
  bad_link : UriError → CommandError
  dialer_error : DialerError → CommandError

-- The `switch` of newRegionCmd.
unfoldable pub region_profile : Bytes → Result CommandError Profile
region_profile region =
    if equal region (codes "RU")
    then ok default_ru_profile
    else if equal region (codes "IR")
    then ok default_ir_profile
    else if equal region (codes "CN")
    then ok default_cn_profile
    else err unknown_region

abbrev pub decide : ℕ → ProbeResult → Result CommandError Profile → Result CommandError Decision
decide asn r (err e) = err e
decide asn r (ok prof) = ok (select (record { profile = prof; asn = asn; probe = r }))

module _ (dial : ℕ → ℕ → Bytes → Bytes → DialAnswer) (schedule : List Started → List Started) where
  abbrev decided : Bytes → ℕ → Option ProbeResult → Option (Result CommandError Decision)
  decided region asn none = none
  decided region asn (some r) = some (decide asn r (region_profile region))

  -- newRegionCmd for a host; `none` is a panic.
  unfoldable pub region_command : Bytes → ℕ → Bytes → Option (Result CommandError Decision)
  region_command region asn host = decided region asn (run dial schedule (default_config host))

-- The `transport.ClientConfig` of buildDialer; the fields that are not set are empty.
abbrev pub client_config : UriConfig → Bool → ClientConfig
client_config u insecure = record {
  addr = join_host_port u.host (decimal u.port);
  uuid = u.uuid;
  sni = u.sni;
  server_static_pub = u.server_pub;
  insecure_skip_verify = insecure;
  prologue = [];
  fingerprint = [];
}

abbrev pub wrapped {ℓ} : {A : Type ℓ} → Result DialerError A → Result CommandError A
wrapped (ok a) = ok a
wrapped (err e) = err (dialer_error e)

unfoldable pub build_dialer : Network → UriConfig → Bytes → Bool → Result CommandError ClientConfig
build_dialer net u name insecure =
    if equal name (codes "tcp")
    then wrapped (new_client_config (client_config u insecure))
    else if equal name (codes "quic")
    then wrapped (new_quic_client net (client_config u insecure))
    else err unknown_transport

abbrev from_link {ℓ} : {A : Type ℓ} → Result UriError A → Result CommandError A
from_link (ok a) = ok a
from_link (err e) = err (bad_link e)

-- How newTunnelCmd and newSocksCmd begin: the dialer of a link, and the identity that they give
-- `tunnel.NewClient`.
unfoldable pub open_link :
    Network → Bytes → Bytes → Bool → Result CommandError (ClientConfig × Bytes)
open_link net text name insecure = do
  u ← from_link (parse text)
  d ← build_dialer net u name insecure
  ok (d, u.uuid)
