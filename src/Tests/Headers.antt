-- ===== src/Tests/Headers.antt =====
-- pkg/protocol/header.go on a PING to a name.
use avangard_private.Common.{
  IsBytes, arith, ◌+◌, ◌≤◌, ◌≡◌, ◌↔◌, refl, true, [], ◌∷◌, ◌++◌, Bytes, length, replicate, take, ok,
  err, read_full,
}
use avangard_private.Protocol.{
  header_version, Header, HeaderError, encode, decode, encode_addr, decode_addr, decode_domain,
  valid_cmd, max_header_len, addr_too_long,
}
use avangard_private.Protocol.Bounds.{IsAddr, addr_size, encode_iff, length-encode}
use avangard_private.Protocol.RoundTrip.{IsHeader, decode-encode}
use avangard_private.Protocol.Canonical.{encode-decode, decode-IsHeader, decode_truncated}

abbrev ping : Header
ping = record {
  version = 1;
  token_hmac = replicate 16 7;
  cmd = 3;
  atyp = 3;
  addr = 97 ∷ 98 ∷ [];
  port = 8080;
}

abbrev ping_bytes : Bytes
ping_bytes = 1 ∷ (replicate 16 7 ++ (3 ∷ 3 ∷ 2 ∷ 97 ∷ 98 ∷ 31 ∷ 144 ∷ []))

encode-ping : encode ping ≡ ok ping_bytes
unfolding encode encode_addr valid_cmd
encode-ping = refl

decode-ping : decode (ping_bytes ++ 5 ∷ []) ≡ ok (ping, 5 ∷ [])
unfolding decode decode_addr decode_domain valid_cmd read_full
decode-ping = refl

empty_name : encode_addr 3 [] ≡ err addr_too_long
unfolding encode_addr
empty_name = refl

ping-IsHeader : IsHeader ping
ping-IsHeader = omega arith

decode-encode_example : decode (ping_bytes ++ 5 ∷ []) ≡ ok (ping, 5 ∷ [])
decode-encode_example = decode-encode ping ping_bytes (5 ∷ []) ping-IsHeader refl encode-ping

encode-decode_example : (bs : Bytes) × (encode ping ≡ ok bs) × (ping_bytes ++ 5 ∷ [] ≡ bs ++ 5 ∷ [])
encode-decode_example = encode-decode (ping_bytes ++ 5 ∷ []) (5 ∷ []) ping (omega arith) decode-ping

decode-IsHeader_example : IsHeader ping × (ping.version ≡ header_version) × IsBytes (5 ∷ [])
decode-IsHeader_example =
    decode-IsHeader (ping_bytes ++ 5 ∷ []) (5 ∷ []) ping (omega arith) decode-ping

decode_truncated_example : (e : HeaderError) × (decode (take 20 ping_bytes) ≡ err e)
decode_truncated_example =
    decode_truncated ping (take 20 ping_bytes) (98 ∷ 31 ∷ 144 ∷ []) 97 ping-IsHeader refl
      (omega arith) encode-ping

encode_iff_example :
    ((bs : Bytes) × (encode ping ≡ ok bs)) ↔ ((valid_cmd 3 ≡ true) × IsAddr 3 (97 ∷ 98 ∷ []))
encode_iff_example = encode_iff ping refl

length-encode_example :
    (length ping_bytes ≡ 21 + addr_size 3 (97 ∷ 98 ∷ [])) × (length ping_bytes ≤ max_header_len)
length-encode_example = length-encode ping ping_bytes refl encode-ping
