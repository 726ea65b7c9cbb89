-- ===== src/Tunnel/Client.antt =====
-- pkg/tunnel/client.go. Parameters: `hmac` (HMAC-SHA256) and `parse_ip` (net.ParseIP, which gives the
-- 16-byte form).
pub mod Ports
use avangard_private.Common.{
  ℕ, ◌+◌, ◌-◌, ◌*◌, ◌%◌, ◌^◌, ◌||◌, [], ◌∷◌, Bytes, length, ltb, ◌==◌, if◌then◌else◌, Option, none,
  some, Result, ok, err, ◌>>=◌, ◌>>◌, or_fail,
}
use avangard_private.Protocol.{
  Header, HeaderError, header_version, cmd_connect, atyp_ipv4, atyp_ipv6, atyp_domain, encode,
}
use avangard_private.Auth.Token.{derive_token}
use avangard_private.Transport.{TunnelStream}
use avangard_private.Duplex.{Duplex, write}
use avangard_private.Net.{split_host_port, to4}

pub data DialError : Type 0 where
  bad_host_port bad_domain_length bad_port dial_failed write_failed : DialError
  bad_header : HeaderError → DialError

-- The loop of `parsePort` over the characters, on a uint16.
unfoldable pub parse_port_from : ℕ → Bytes → Result DialError ℕ
parse_port_from p [] = ok p
parse_port_from p (c ∷ s) =
    let rest = parse_port_from ((p * 10 % 2 ^ 16 + (c - b'0')) % 2 ^ 16) s in
    if ltb c b'0' || ltb b'9' c then err bad_port else rest

unfoldable pub parse_port : Bytes → Result DialError ℕ
parse_port = parse_port_from 0

abbrev encoded {ℓ} : {A : Type ℓ} → Result HeaderError A → Result DialError A
encoded (ok a) = ok a
encoded (err e) = err (bad_header e)

-- The header that `DialTunnel` builds.
module _ (hmac : Bytes → Bytes → Bytes) where
  abbrev pub connect_header : Bytes → Bytes → ℕ → Bytes → ℕ → Header
  connect_header uuid channel atyp addr port = record {
    version = header_version;
    token_hmac = derive_token hmac uuid channel;
    cmd = cmd_connect;
    atyp = atyp;
    addr = addr;
    port = port;
  }

module _ (parse_ip : Bytes → Option Bytes) where
  -- `ip.To16()` of a 16-byte address is the address.
  unfoldable pub encode_dest : Bytes → Result DialError (ℕ × Bytes)
  encode_dest host = elim (parse_ip host) [
    | some ip ↦ elim (to4 ip) [ some v4 ↦ ok (atyp_ipv4, v4) | none ↦ ok (atyp_ipv6, ip) ]
    | none ↦
        if length host == 0 || ltb 255 (length host)
        then err bad_domain_length
        else ok (atyp_domain, host)
  ]

  module _ (hmac : Bytes → Bytes → Bytes) where
    -- `c.dialer.Dial` gives the stream or an error. The stream that is returned has the header written.
    unfoldable pub dial_tunnel : Bytes → Option TunnelStream → Bytes → Result DialError TunnelStream
    dial_tunnel uuid dialed dest = do
      (host, port_str) ← or_fail (split_host_port dest) bad_host_port
      (atyp, addr) ← encode_dest host
      port ← parse_port port_str
      ts ← or_fail dialed dial_failed
      bytes ← encoded (encode (connect_header hmac uuid ts.channel atyp addr port))
      conn ← or_fail (write bytes ts.conn) write_failed
      ok (record ts { conn = conn })
