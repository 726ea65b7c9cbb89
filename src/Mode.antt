-- ===== src/Mode.antt =====
-- pkg/uri/uri.go: the transport modes, which are strings.
use avangard_private.Common.{Bytes, codes}

abbrev pub Mode : Type 0
Mode = Bytes

abbrev pub mode_auto : Mode
mode_auto = codes "auto"

abbrev pub mode_yandex_cdn : Mode
mode_yandex_cdn = codes "yandex_cdn"

abbrev pub mode_gosuslugi_ws : Mode
mode_gosuslugi_ws = codes "gosuslugi_ws"

abbrev pub mode_split_dpi : Mode
mode_split_dpi = codes "splitdpi"

abbrev pub mode_quic_camouflage : Mode
mode_quic_camouflage = codes "quic_camouflage"

abbrev pub mode_dns_tunnel : Mode
mode_dns_tunnel = codes "dns_tunnel"
