-- ===== src/Protocol.antt =====
-- pkg/protocol/header.go: the request header, `Encode` and `Decode`. The reader that `Decode` takes
-- is the list of the bytes that the peer sends before it closes; the bytes left over are returned.
pub mod Bounds
pub mod RoundTrip
pub mod Canonical
use avangard_private.Common.{
  ℕ, ◌+◌, ◌*◌, ◌/◌, ◌%◌, Bool, not, ◌||◌, List, [], ◌∷◌, ◌++◌, Bytes, length, get_or, slice, ltb,
  ◌==◌, if◌then◌else◌, Option, Result, ok, err, ◌>>=◌, ◌>>◌, guard, or_fail, read_full,
}

abbrev pub header_version : ℕ
header_version = 1

abbrev pub cmd_connect : ℕ
cmd_connect = 1

abbrev pub cmd_udp_associate : ℕ
cmd_udp_associate = 2

abbrev pub cmd_ping : ℕ
cmd_ping = 3

abbrev pub cmd_bind : ℕ
cmd_bind = 4

abbrev pub atyp_ipv4 : ℕ
atyp_ipv4 = 1

abbrev pub atyp_domain : ℕ
atyp_domain = 3

abbrev pub atyp_ipv6 : ℕ
atyp_ipv6 = 4

abbrev pub token_hmac_len : ℕ
token_hmac_len = 16

abbrev pub max_header_len : ℕ
max_header_len = 277

pub record Header : Type 0 where
  pub version : ℕ
  pub token_hmac : Bytes
  pub cmd : ℕ
  pub atyp : ℕ
  pub addr : Bytes
  pub port : ℕ

-- `read_prefix`, `read_addr` and `read_port` are the reader's error in the three places of `Decode`.
pub data HeaderError : Type 0 where
  bad_version bad_atyp addr_too_long bad_cmd : HeaderError
  read_prefix read_addr read_port : HeaderError

unfoldable pub valid_cmd : ℕ → Bool
valid_cmd c = c == cmd_connect || c == cmd_udp_associate || c == cmd_ping || c == cmd_bind

unfoldable pub encode_addr : ℕ → Bytes → Result HeaderError Bytes
encode_addr atyp addr =
    if atyp == atyp_ipv4
    then (if length addr == 4 then ok addr else err bad_atyp)
    else if atyp == atyp_ipv6
    then (if length addr == 16 then ok addr else err bad_atyp)
    else if atyp == atyp_domain
    then (if length addr == 0 || ltb 255 (length addr)
        then err addr_too_long
        else ok (length addr % 256 ∷ addr))
    else err bad_atyp

-- `binary.BigEndian.AppendUint16(nil, n)`
abbrev pub big_endian16 : ℕ → Bytes
big_endian16 n = n / 256 % 256 ∷ n % 256 ∷ []

-- `binary.BigEndian.Uint16(b)`
abbrev pub uint16 : Bytes → ℕ
uint16 b = get_or b 0 0 * 256 + get_or b 1 0

abbrev pub layout : Header → Bytes → Bytes
layout h addr_bytes =
    (h.version ∷ (h.token_hmac ++ (h.cmd ∷ h.atyp ∷ []))) ++ (addr_bytes ++ big_endian16 h.port)

unfoldable pub encode : Header → Result HeaderError Bytes
encode h = do
  guard (valid_cmd h.cmd) bad_cmd
  addr_bytes ← encode_addr h.atyp h.addr
  let out = layout h addr_bytes
  if ltb max_header_len (length out) then err addr_too_long else ok out

-- `case AtypDomain` of `decodeAddr`
unfoldable pub decode_domain : Bytes → Result HeaderError (Bytes × Bytes)
decode_domain r = do
  (len_buf, r') ← or_fail (read_full 1 r) read_addr
  guard (not (get_or len_buf 0 0 == 0)) bad_atyp
  or_fail (read_full (get_or len_buf 0 0) r') read_addr

unfoldable pub decode_addr : ℕ → Bytes → Result HeaderError (Bytes × Bytes)
decode_addr atyp r =
    if atyp == atyp_ipv4
    then or_fail (read_full 4 r) read_addr
    else if atyp == atyp_ipv6
    then or_fail (read_full 16 r) read_addr
    else if atyp == atyp_domain
    then decode_domain r
    else err bad_atyp

unfoldable pub decode : Bytes → Result HeaderError (Header × Bytes)
decode r = do
  (prefix, r1) ← or_fail (read_full (1 + token_hmac_len + 1 + 1) r) read_prefix
  guard (get_or prefix 0 0 == header_version) bad_version
  guard (valid_cmd (get_or prefix (1 + token_hmac_len) 0)) bad_cmd
  (addr, r2) ← decode_addr (get_or prefix (1 + token_hmac_len + 1) 0) r1
  (port_buf, r3) ← or_fail (read_full 2 r2) read_port
  ok (
    record {
      version = get_or prefix 0 0;
      token_hmac = slice 1 (1 + token_hmac_len) prefix;
      cmd = get_or prefix (1 + token_hmac_len) 0;
      atyp = get_or prefix (1 + token_hmac_len + 1) 0;
      addr = addr;
      port = uint16 port_buf;
    },
    r3,
  )
