-- ===== src/Protocol/RoundTrip.antt =====
-- pkg/protocol/header.go: `Decode` against `Encode`.
use mathlib.Core.List.{append_assoc}
use avangard_private.Common.{
  ℕ, ◌%◌, ◌^◌, ◌<◌, ◌≡◌, true, length-append, get_or-append_next, [], ◌∷◌, ◌++◌, Bytes, IsBytes,
  length, ok, some, read_full, read_full_at, take-append_at, get_or-append_at, arith,
}
use avangard_private.Protocol.Bounds.{encode_parts}
use avangard_private.Protocol.{
  Header, header_version, encode_addr, decode_domain, decode_addr, encode, decode, layout,
  valid_cmd, big_endian16, uint16,
}

-- What Go's types guarantee of a header.
pub record IsHeader (h : Header) : Type 0 where
  pub version_lt : h.version < 256
  pub token_length : length h.token_hmac ≡ 16
  pub token_bytes : IsBytes h.token_hmac
  pub cmd_lt : h.cmd < 256
  pub atyp_lt : h.atyp < 256
  pub addr_bytes : IsBytes h.addr
  pub port_lt : h.port < 2 ^ 16

uint16-big_endian16 : (n : ℕ) → n < 2 ^ 16 → uint16 (big_endian16 n) ≡ n
uint16-big_endian16 n h = omega arith

decode_domain-cons :
    (a rest : Bytes)
    → 0 < length a
    → length a < 256
    → decode_domain ((length a % 256 ∷ a) ++ rest) ≡ ok (a, rest)
unfolding decode_domain
decode_domain-cons a rest h k =
    ground (
      arith,
      read_full_at 1 (length a % 256 ∷ []) (a ++ rest),
      read_full_at (length a % 256) a rest,
    )

decode_addr-encode_addr :
    (t : ℕ) (a bs rest : Bytes)
    → encode_addr t a ≡ ok bs
    → decode_addr t (bs ++ rest) ≡ ok (a, rest)
unfolding encode_addr decode_addr
decode_addr-encode_addr t a bs rest h =
    ground (arith, read_full_at 4 a rest, read_full_at 16 a rest, decode_domain-cons a rest)

-- The fixed prefix, which is read in one piece.
abbrev fixed : Header → Bytes
fixed h = h.version ∷ (h.token_hmac ++ (h.cmd ∷ h.atyp ∷ []))

length-fixed : (h : Header) → length h.token_hmac ≡ 16 → length (fixed h) ≡ 19
length-fixed h t = omega (arith, length-append h.token_hmac (h.cmd ∷ h.atyp ∷ []))

read_full-layout :
    (h : Header) (ab rest : Bytes)
    → length h.token_hmac ≡ 16
    → read_full 19 (layout h ab ++ rest) ≡ some (fixed h, ab ++ (big_endian16 h.port ++ rest))
read_full-layout h ab rest t =
    rw
      (
        append_assoc (fixed h) (ab ++ big_endian16 h.port) rest,
        append_assoc ab (big_endian16 h.port) rest,
      )
      (read_full_at 19 (fixed h) _ (length-fixed h t))

decode-layout :
    (h : Header) (ab rest : Bytes)
    → length h.token_hmac ≡ 16
    → h.port < 2 ^ 16
    → h.version ≡ 1
    → valid_cmd h.cmd ≡ true
    → encode_addr h.atyp h.addr ≡ ok ab
    → decode (layout h ab ++ rest) ≡ ok (h, rest)
unfolding decode
decode-layout h ab rest tl pl v c e = rw (read_full-layout h ab rest tl) (
    ground (
      arith,
      take-append_at h.token_hmac (h.cmd ∷ h.atyp ∷ []) 16 tl,
      get_or-append_at h.token_hmac h.cmd (h.atyp ∷ []) 16 0 tl,
      get_or-append_next h.token_hmac h.cmd h.atyp [] 16 0 tl,
      decode_addr-encode_addr h.atyp h.addr ab (big_endian16 h.port ++ rest) e,
      read_full_at 2 (big_endian16 h.port) rest,
      uint16-big_endian16 h.port pl,
    ))

pub decode-encode_fields :
    (h : Header) (bs rest : Bytes)
    → length h.token_hmac ≡ 16
    → h.port < 2 ^ 16
    → h.version ≡ header_version
    → encode h ≡ ok bs
    → decode (bs ++ rest) ≡ ok (h, rest)
decode-encode_fields h bs rest t p v e =
    let (c, parts) = encode_parts h bs e in
    let (ab, a, l) = parts in rw l (decode-layout h ab rest t p v c a)

-- A header of the current version, with fields of their widths, that `Encode` accepts is decoded to
-- itself, and exactly its own bytes are read.
pub decode-encode :
    (h : Header) (bs rest : Bytes)
    → IsHeader h
    → h.version ≡ header_version
    → encode h ≡ ok bs
    → decode (bs ++ rest) ≡ ok (h, rest)
decode-encode h bs rest w v e = decode-encode_fields h bs rest w.token_length w.port_lt v e
