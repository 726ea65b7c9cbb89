-- ===== src/Tunnel/EndToEnd.antt =====
-- pkg/tunnel: the header that the client writes, as the server takes it.
use avangard_private.Common.{
  ℕ, suc, ◌%◌, ◌^◌, ◌<◌, ◌≤◌, ◌≡◌, ◌∙◌, inl, inr, refl, ap, Bool, true, List, [], ◌∷◌, ◌++◌, Bytes,
  Any, length, ok, arith, Option, none, some, Option-cases, Result-cases, if◌then◌else◌,
}
use avangard_private.Protocol.{Header, encode}
use avangard_private.Protocol.RoundTrip.{decode-encode_fields}
use avangard_private.Auth.Token.{derive_token, length-derive_token}
use avangard_private.Duplex.{write, write-sent}
use avangard_private.Net.{join_host_port, split_host_port, decimal, to4}
use avangard_private.Net.HostPort.{IsClean, split-join}
use avangard_private.Net.Decimal.{decimal-IsClean, decimal-no_colon}
use avangard_private.Transport.{TunnelStream}
use avangard_private.Tunnel.Client.{parse_port, encode_dest, connect_header, dial_tunnel}
use avangard_private.Tunnel.Client.Ports.{parse_port-value}
use avangard_private.Url.{all}
use avangard_private.Url.Parse.{digit}
use avangard_private.Uri.{value_from}
use avangard_private.Uri.Numbers.{value_from-decimal}
use avangard_private.Tunnel.Opens.{dial_tunnel_opens}
use avangard_private.Tunnel.Server.{
  arrives, dials, relays, closes_upstream, closes, host_string, destination, handle_connect,
  dispatch, handle,
}
use avangard_private.Tunnel.Server.Access.{Accepted, handle_served}

module _ (parse_ip : Bytes → Option Bytes) (hmac : Bytes → Bytes → Bytes) where
  -- A successful call of `DialTunnel`, call by call.
  record Dialed (uuid : Bytes) (ts : TunnelStream) (dest : Bytes) (ts' : TunnelStream)
      : Type 0 where
    host : Bytes
    port_str : Bytes
    atyp : ℕ
    addr : Bytes
    port : ℕ
    bytes : Bytes
    split_ok : split_host_port dest ≡ some (host, port_str)
    dest_ok : encode_dest parse_ip host ≡ ok (atyp, addr)
    port_ok : parse_port port_str ≡ ok port
    encode_ok : encode (connect_header hmac uuid ts.channel atyp addr port) ≡ ok bytes
    write_ok : write bytes ts.conn ≡ some ts'.conn

  dial_tunnel-Dialed :
      (uuid dest : Bytes) (ts ts' : TunnelStream)
      → dial_tunnel parse_ip hmac uuid (some ts) dest ≡ ok ts'
      → Dialed uuid ts dest ts'
  unfolding dial_tunnel
  dial_tunnel-Dialed uuid dest ts ts' e = elim (Option-cases (split_host_port dest)) [
    | inl n ↦ absurd (ground arith)
    | inr (a, p) ↦ elim (Result-cases (encode_dest parse_ip a.0)) [
      | inr (x, n) ↦ absurd (ground arith)
      | inl (b, q) ↦ elim (Result-cases (parse_port a.1)) [
        | inr (x, n) ↦ absurd (ground arith)
        | inl (c, r) ↦
            elim (Result-cases (encode (connect_header hmac uuid ts.channel b.0 b.1 c))) [
              | inr (x, n) ↦ absurd (ground arith)
              | inl (bs, s) ↦ elim (Option-cases (write bs ts.conn)) [
                | inl n ↦ absurd (ground arith)
                | inr (d, w) ↦ record {
                  host = a.0;
                  port_str = a.1;
                  atyp = b.0;
                  addr = b.1;
                  port = c;
                  bytes = bs;
                  split_ok = p;
                  dest_ok = q;
                  port_ok = r;
                  encode_ok = s;
                  write_ok = ground arith;
                }
              ]
            ]
      ]
    ]
  ]

  module _ (ip_string : Bytes → Bytes) (accepted : List Bytes) (dial : Bytes → Bool) where
    -- The host that the server dials for a host of the client: an IP address is printed anew.
    abbrev pub dialed_host : Bytes → Bytes
    dialed_host host = elim (parse_ip host) [
      | none ↦ host
      | some ip ↦ elim (to4 ip) [ some v4 ↦ ip_string v4 | none ↦ ip_string ip ]
    ]

    host_string-encode_dest :
        (h : Header) (host : Bytes)
        → encode_dest parse_ip host ≡ ok (h.atyp, h.addr)
        → host_string ip_string h ≡ dialed_host host
    unfolding host_string encode_dest
    host_string-encode_dest h host e = ground arith

    dispatch_connect :
        (uuid channel host payload addr : Bytes) (atyp port : ℕ)
        → encode_dest parse_ip host ≡ ok (atyp, addr)
        → dispatch hmac ip_string dial (connect_header hmac uuid channel atyp addr port) payload ≡ (
            let target = join_host_port (dialed_host host) (decimal port) in
            dials target ∷ (if dial target then relays payload ∷ closes_upstream ∷ [] else []))
    unfolding dispatch handle_connect destination
    dispatch_connect uuid channel host payload addr atyp port e =
        let h = connect_header hmac uuid channel atyp addr port in
        rw (host_string-encode_dest h host e)

    Accepted-identity :
        (uuid channel : Bytes) (us : List Bytes)
        → Any (λ u. u ≡ uuid) us
        → Accepted hmac us (derive_token hmac uuid channel) channel
    Accepted-identity uuid channel [] a = a
    Accepted-identity uuid channel (u ∷ us) (inl e) = inl (rw e)
    Accepted-identity uuid channel (u ∷ us) (inr a) = inr (Accepted-identity uuid channel us a)

    -- If `DialTunnel` opens a tunnel, what it has written, behind what the stream had sent before, makes a
    -- server that accepts its identity, on a stream with the same channel binding, dial the host that
    -- the client was asked for (an IP address as it is printed) at the port that was asked for modulo
    -- 2^16, and relay what follows if it reaches them. HMAC gives 32 bytes. The port that was asked for is
    -- the number that its digits stand for, and so the same from 0 to 65535, and another one from 65536 on.
    pub tunnel_end_to_end :
        (uuid dest payload : Bytes) (ts ts' : TunnelStream)
        → length (hmac uuid ts.channel) ≡ 32
        → Any (λ u. u ≡ uuid) accepted
        → dial_tunnel parse_ip hmac uuid (some ts) dest ≡ ok ts'
        → (written host port_str : Bytes) × (ts'.conn.sent ≡ ts.conn.sent ++ written)
          × (split_host_port dest ≡ some (host, port_str))
          × (all digit port_str ≡ true)
          × (handle hmac ip_string accepted ts.channel dial (arrives (written ++ payload))
              ≡ (let target =
                    join_host_port (dialed_host host) (decimal (value_from 0 port_str % 2 ^ 16)) in
                  dials target
                  ∷ (if dial target then relays payload ∷ closes_upstream ∷ [] else []))
                ++ closes ∷ [])
    tunnel_end_to_end uuid dest payload ts ts' k a e =
        let d = dial_tunnel-Dialed uuid dest ts ts' e in
        let h = connect_header hmac uuid ts.channel d.atyp d.addr d.port in
        let (digits, same_port) = parse_port-value d.port_str d.port d.port_ok in
        let decoded =
          decode-encode_fields h d.bytes payload (length-derive_token hmac uuid ts.channel k)
            (omega (arith, same_port)) refl d.encode_ok in
        (
          d.bytes,
          d.host,
          d.port_str,
          write-sent d.bytes ts.conn ts'.conn d.write_ok,
          d.split_ok,
          digits,
          handle_served hmac ip_string accepted ts.channel dial (d.bytes ++ payload) payload h
                decoded (Accepted-identity uuid ts.channel accepted a)
              ∙ ap (λ x. x ++ closes ∷ [])
                  (dispatch_connect uuid ts.channel d.host payload d.addr d.atyp d.port d.dest_ok
                    ∙ ap
                        (λ port.
                          let target = join_host_port (dialed_host d.host) (decimal port) in
                          dials target
                          ∷ (if dial target then relays payload ∷ closes_upstream ∷ [] else []))
                        same_port),
        )

    -- A name with no bracket, of 1 to 255 bytes, that is not an IP address, and a port below 65536: if
    -- the dialer gives a stream and the write succeeds, the tunnel is opened, and the server, if
    -- it accepts the identity, dials that name and port as they were given. Where it is reached, what the
    -- client sends is relayed.
    pub tunnel_dials_name :
        (uuid host payload : Bytes) (port n : ℕ) (ts : TunnelStream)
        → length (hmac uuid ts.channel) ≡ 32
        → Any (λ u. u ≡ uuid) accepted
        → ts.conn.writes_left ≡ suc n
        → parse_ip host ≡ none
        → IsClean host
        → 0 < length host
        → length host ≤ 255
        → port < 2 ^ 16
        → dial (join_host_port host (decimal port)) ≡ true
        → (ts' : TunnelStream) × (written : Bytes) × (dial_tunnel parse_ip hmac uuid
              (some ts)
              (join_host_port host (decimal port))
            ≡ ok ts')
          × (ts'.conn.sent ≡ ts.conn.sent ++ written)
          × (handle hmac ip_string accepted ts.channel dial (arrives (written ++ payload))
              ≡ dials (join_host_port host (decimal port))
                ∷ relays payload
                ∷ closes_upstream
                ∷ closes
                ∷ [])
    tunnel_dials_name uuid host payload port n ts k a w ip c l u lt up =
        let (ts', e) = dial_tunnel_opens parse_ip hmac uuid host port n ts k ip c l u w in
        let (written, host', port', sent, s, digits, eq) =
          tunnel_end_to_end uuid (join_host_port host (decimal port)) payload ts ts' k a e in
        let s' = split-join host (decimal port) c (decimal-IsClean port) (decimal-no_colon port) in
        let same_host : host' ≡ host = cc (s, s') in
        let same_str : port' ≡ decimal port = cc (s, s') in
        let same_port : value_from 0 port' % 2 ^ 16 ≡ port =
          omega (arith, ap (value_from 0) same_str, value_from-decimal port) in
        (ts', written, e, sent, eq ∙ rw (same_host, same_port) (rw (ip, dialed_host) (rw up)))
