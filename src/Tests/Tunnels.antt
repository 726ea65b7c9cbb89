-- ===== src/Tests/Tunnels.antt =====
-- pkg/tunnel: a tunnel to "ab:80", with a stand-in for HMAC-SHA256.
use avangard_private.Common.{
  ◌%◌, ◌^◌, ◌≡◌, ◌⊎◌, inl, refl, Bool, true, [], ◌∷◌, ◌++◌, Bytes, replicate, take, ok, Option,
  none, some, codes,
}
use avangard_private.Protocol.{Header, encode, decode, encode_addr, valid_cmd}
use avangard_private.Auth.Token.{derive_token}
use avangard_private.Duplex.{write}
use avangard_private.Url.{all}
use avangard_private.Url.Parse.{digit}
use avangard_private.Uri.{value_from}
use avangard_private.Net.{split_host_port, join_host_port, decimal, contains}
use avangard_private.Net.HostPort.{IsClean}
use avangard_private.Transport.{TunnelStream}
use avangard_private.Tunnel.Client.{dial_tunnel, encode_dest, parse_port, parse_port_from}
use avangard_private.Tunnel.Client.Ports.{parse_port-decimal}
use avangard_private.Tunnel.Server.{
  arrives, dials, relays, closes_upstream, closes, dispatch, handle,
}
use avangard_private.Tunnel.Server.Access.{Accepted, handle_access}
use avangard_private.Tunnel.EndToEnd.{dialed_host, tunnel_end_to_end}

abbrev pub toy_hmac : Bytes → Bytes → Bytes
toy_hmac k m = take 32 (k ++ (m ++ replicate 32 0))

abbrev pub no_ip : Bytes → Option Bytes
no_ip host = none

abbrev pub as_is : Bytes → Bytes
as_is b = b

abbrev pub reachable : Bytes → Bool
reachable dest = true

abbrev pub uuid : Bytes
uuid = codes "u-1"

abbrev stream : TunnelStream
stream = record {
  channel = 9 ∷ 8 ∷ [];
  conn = record { incoming = []; sent = []; writes_left = 1 };
}

abbrev header_bytes : Bytes
header_bytes = 1 ∷ (take 16 (toy_hmac uuid (9 ∷ 8 ∷ [])) ++ (1 ∷ 3 ∷ 2 ∷ 97 ∷ 98 ∷ 0 ∷ 80 ∷ []))

abbrev opened_stream : TunnelStream
opened_stream = record {
  channel = 9 ∷ 8 ∷ [];
  conn = record { incoming = []; sent = header_bytes; writes_left = 0 };
}

dial_tunnel_run : dial_tunnel no_ip toy_hmac uuid (some stream) (codes "ab:80") ≡ ok opened_stream
unfolding dial_tunnel split_host_port encode_dest parse_port parse_port_from encode encode_addr
    valid_cmd derive_token write
dial_tunnel_run = refl

tunnel_end_to_end_example :
    (written host port_str : Bytes) × (opened_stream.conn.sent ≡ stream.conn.sent ++ written)
    × (split_host_port (codes "ab:80") ≡ some (host, port_str))
    × (all digit port_str ≡ true)
    × (handle toy_hmac as_is (uuid ∷ []) (9 ∷ 8 ∷ []) reachable (arrives (written ++ codes "GET"))
        ≡ dials (
            join_host_port
              (dialed_host no_ip toy_hmac as_is (uuid ∷ []) reachable host)
              (decimal (value_from 0 port_str % 2 ^ 16)))
          ∷ relays (codes "GET")
          ∷ closes_upstream
          ∷ closes
          ∷ [])
tunnel_end_to_end_example =
    tunnel_end_to_end no_ip toy_hmac as_is (uuid ∷ []) reachable uuid (codes "ab:80") (codes "GET")
      stream opened_stream refl (inl refl) dial_tunnel_run

pub ab-IsClean : IsClean (codes "ab")
unfolding contains
ab-IsClean = record { no_open = refl; no_close = refl }

handle_access_example :
    (handle toy_hmac as_is (uuid ∷ []) (9 ∷ 8 ∷ []) reachable (arrives header_bytes) ≡ closes ∷ [])
    ⊎ ((bytes : Bytes) × (h : Header) × (rest : Bytes) × (arrives header_bytes ≡ arrives bytes)
        × (decode bytes ≡ ok (h, rest))
        × Accepted toy_hmac (uuid ∷ []) h.token_hmac (9 ∷ 8 ∷ [])
        × (handle toy_hmac as_is (uuid ∷ []) (9 ∷ 8 ∷ []) reachable (arrives header_bytes)
            ≡ dispatch toy_hmac as_is reachable h rest ++ closes ∷ []))
handle_access_example =
    handle_access toy_hmac as_is (uuid ∷ []) (9 ∷ 8 ∷ []) reachable (arrives header_bytes)

-- Port 65616 is taken for port 80.
parse_port-decimal_example : parse_port (decimal 65616) ≡ ok (65616 % 2 ^ 16)
parse_port-decimal_example = parse_port-decimal 65616
