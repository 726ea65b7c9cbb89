-- ===== src/Tunnel/Opens.antt =====
-- pkg/tunnel/client.go, `DialTunnel`: when a tunnel is opened.
use avangard_private.Common.{
  ℕ, suc, ◌%◌, ◌^◌, ◌≤◌, ◌<◌, ◌≡◌, refl, false, ◌++◌, Bytes, length, ltb, ◌==◌, ◌||◌, Option, none,
  some, ok, arith,
}
use avangard_private.Protocol.{layout, valid_cmd}
use avangard_private.Protocol.Bounds.{domain, IsAddr-encode_addr, encode-layout}
use avangard_private.Auth.Token.{length-derive_token}
use avangard_private.Duplex.{write_lem}
use avangard_private.Net.{join_host_port, decimal}
use avangard_private.Net.HostPort.{IsClean, split-join}
use avangard_private.Net.Decimal.{decimal-IsClean, decimal-no_colon}
use avangard_private.Transport.{TunnelStream}
use avangard_private.Tunnel.Client.{connect_header, dial_tunnel, encode_dest}
use avangard_private.Tunnel.Client.Ports.{parse_port-decimal}

module _ (parse_ip : Bytes → Option Bytes) where
  encode_dest_name :
      (host : Bytes)
      → parse_ip host ≡ none
      → 0 < length host
      → length host ≤ 255
      → encode_dest parse_ip host ≡ ok (3, host)
  unfolding encode_dest
  encode_dest_name host ip l u =
      let long : (length host == 0 || ltb 255 (length host)) ≡ false = ground arith in
      rw (ip, encode_dest) (rw long)

  module _ (hmac : Bytes → Bytes → Bytes) where
    -- The tunnel to a name that is not empty and has at most 255 bytes is opened, if the dialer gives a
    -- stream and the one write to it succeeds.
    pub dial_tunnel_opens :
        (uuid host : Bytes) (port n : ℕ) (ts : TunnelStream)
        → length (hmac uuid ts.channel) ≡ 32
        → parse_ip host ≡ none
        → IsClean host
        → 0 < length host
        → length host ≤ 255
        → ts.conn.writes_left ≡ suc n
        → (ts' : TunnelStream) × (dial_tunnel parse_ip hmac uuid
              (some ts)
              (join_host_port host (decimal port))
            ≡ ok ts')
    unfolding dial_tunnel
    dial_tunnel_opens uuid host port n ts k ip c l u w =
        let s = split-join host (decimal port) c (decimal-IsClean port) (decimal-no_colon port) in
        let h = connect_header hmac uuid ts.channel 3 host (port % 2 ^ 16) in
        let (ab, a) = IsAddr-encode_addr (domain refl l u) in
        let e =
          encode-layout h ab (length-derive_token hmac uuid ts.channel k) (unfold valid_cmd in refl)
            a in
        let sent = record ts.conn { sent = ts.conn.sent ++ layout h ab; writes_left = n } in
        (
          record ts { conn = sent },
          ground (
            arith,
            s,
            encode_dest_name host ip l u,
            parse_port-decimal port,
            e,
            write_lem (layout h ab) ts.conn n w,
          ),
        )
