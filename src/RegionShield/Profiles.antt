-- ===== src/RegionShield/Profiles.antt =====
-- pkg/regionshield/profiles_ru.go: the profiles of the three regions.
use avangard_private.Common.{ℕ, true, false, [], ◌∷◌, none, some, codes}
use avangard_private.Mode.{
  mode_yandex_cdn, mode_gosuslugi_ws, mode_split_dpi, mode_quic_camouflage, mode_dns_tunnel,
}
use avangard_private.RegionShield.{IspRule, Profile}

abbrev pub asn_mts_ru : ℕ
asn_mts_ru = 8359

abbrev pub asn_beeline_ru : ℕ
asn_beeline_ru = 3216

abbrev pub asn_megafon_ru : ℕ
asn_megafon_ru = 31163

abbrev pub asn_rostel_ru : ℕ
asn_rostel_ru = 12389

abbrev pub asn_er_telecom_ru : ℕ
asn_er_telecom_ru = 41733

abbrev plain_rule : IspRule
plain_rule = record {
  preferred_mode = [];
  port = 0;
  extra_frag = false;
  ttl_manip = false;
  quic = none;
}

unfoldable pub default_ru_profile : Profile
default_ru_profile = record {
  region = codes "RU";
  fallback_chain =
      mode_yandex_cdn ∷ mode_split_dpi ∷ mode_gosuslugi_ws ∷ mode_quic_camouflage ∷ mode_dns_tunnel
      ∷ [];
  isp_overrides =
      (
        asn_mts_ru,
        record plain_rule { preferred_mode = mode_split_dpi; extra_frag = true; ttl_manip = true },
      )
      ∷ (
        asn_beeline_ru,
        record plain_rule { preferred_mode = mode_yandex_cdn; port = 2053; quic = some false },
      )
      ∷ (asn_megafon_ru, record plain_rule { preferred_mode = mode_yandex_cdn; quic = some false })
      ∷ (asn_rostel_ru, record plain_rule { preferred_mode = mode_gosuslugi_ws; ttl_manip = true })
      ∷ (asn_er_telecom_ru, record plain_rule { preferred_mode = mode_yandex_cdn })
      ∷ [];
  relays = [];
  ipv6_priority = true;
}

unfoldable pub default_ir_profile : Profile
default_ir_profile = record {
  region = codes "IR";
  fallback_chain =
      mode_yandex_cdn ∷ mode_gosuslugi_ws ∷ mode_quic_camouflage ∷ mode_dns_tunnel ∷ [];
  isp_overrides = [];
  relays = [];
  ipv6_priority = false;
}

unfoldable pub default_cn_profile : Profile
default_cn_profile = record {
  region = codes "CN";
  fallback_chain = mode_yandex_cdn ∷ mode_gosuslugi_ws ∷ [];
  isp_overrides = [];
  relays = [];
  ipv6_priority = false;
}
