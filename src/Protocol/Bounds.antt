-- ===== src/Protocol/Bounds.antt =====
-- pkg/protocol/header.go: when `Encode` succeeds, with which error it fails, and how long its output is.
use avangard_private.Common.{
  ℕ, ◌+◌, ◌≤◌, ◌<◌, ◌≡◌, ◌↔◌, true, Bytes, [], ◌∷◌, ◌++◌, ◌%◌, ◌==◌, if◌then◌else◌, length,
  length-append, ok, inl, inr, arith, Result-cases, Bool-cases,
}
use avangard_private.Protocol.{
  Header, encode_addr, encode, layout, valid_cmd, big_endian16, max_header_len,
}

-- The bytes that an address of each type takes in the header.
abbrev pub addr_size : ℕ → Bytes → ℕ
addr_size t a = if t == 3 then length a + 1 else length a

-- An address that the format can express.
pub data IsAddr : ℕ → Bytes → Type 0 where
  ipv4 : {t : ℕ} {a : Bytes} → t ≡ 1 → length a ≡ 4 → IsAddr t a
  ipv6 : {t : ℕ} {a : Bytes} → t ≡ 4 → length a ≡ 16 → IsAddr t a
  domain : {t : ℕ} {a : Bytes} → t ≡ 3 → 0 < length a → length a ≤ 255 → IsAddr t a

encode_addr-IsAddr :
    (t : ℕ) (a ab : Bytes) → encode_addr t a ≡ ok ab → IsAddr t a × (length ab ≡ addr_size t a)
unfolding encode_addr
encode_addr-IsAddr t a ab h = elim (Bool-cases (t == 1)) [
  | inl e ↦ (ipv4 (ground arith) (ground arith), ground arith)
  | inr n1 ↦ elim (Bool-cases (t == 4)) [
    | inl e ↦ (ipv6 (ground arith) (ground arith), ground arith)
    | inr n4 ↦ (domain (ground arith) (ground arith) (ground arith), ground arith)
  ]
]

pub IsAddr-encode_addr : {t : ℕ} {a : Bytes} → IsAddr t a → (ab : Bytes) × (encode_addr t a ≡ ok ab)
unfolding encode_addr
IsAddr-encode_addr {t} {a} (ipv4 e l) = (a, ground arith)
IsAddr-encode_addr {t} {a} (ipv6 e l) = (a, ground arith)
IsAddr-encode_addr {t} {a} (domain e l u) = (length a % 256 ∷ a, ground arith)

pub encode_parts :
    (h : Header) (bs : Bytes)
    → encode h ≡ ok bs
    → (valid_cmd h.cmd ≡ true)
      × ((ab : Bytes) × (encode_addr h.atyp h.addr ≡ ok ab) × (bs ≡ layout h ab))
unfolding encode
encode_parts h bs e = elim (Result-cases (encode_addr h.atyp h.addr)) [
  | inl (ab, q) ↦ (ground arith, (ab, q, ground arith))
  | inr (x, q) ↦ absurd (ground arith)
]

length-layout :
    (h : Header) (ab : Bytes) → length h.token_hmac ≡ 16 → length (layout h ab) ≡ 21 + length ab
length-layout h ab t = omega (
  arith,
  length-append (h.version ∷ (h.token_hmac ++ (h.cmd ∷ h.atyp ∷ []))) (ab ++ big_endian16 h.port),
  length-append h.token_hmac (h.cmd ∷ h.atyp ∷ []),
  length-append ab (big_endian16 h.port),
)

IsAddr-size : {t : ℕ} {a : Bytes} → IsAddr t a → addr_size t a ≤ 256
IsAddr-size (ipv4 e l) = ground arith
IsAddr-size (ipv6 e l) = ground arith
IsAddr-size (domain e l u) = ground arith

-- With a valid command and address the length check at the end of `Encode` never fails.
pub encode-layout :
    (h : Header) (ab : Bytes)
    → length h.token_hmac ≡ 16
    → valid_cmd h.cmd ≡ true
    → encode_addr h.atyp h.addr ≡ ok ab
    → encode h ≡ ok (layout h ab)
unfolding encode
encode-layout h ab t c e =
    let (w, l) = encode_addr-IsAddr h.atyp h.addr ab e in
    let s = IsAddr-size w in ground (arith, length-layout h ab t)

-- With a token of 16 bytes, `Encode` succeeds exactly on a valid command with an address of the right
-- form for its type.
pub encode_iff :
    (h : Header)
    → length h.token_hmac ≡ 16
    → ((bs : Bytes) × (encode h ≡ ok bs)) ↔ ((valid_cmd h.cmd ≡ true) × IsAddr h.atyp h.addr)
encode_iff h t = (
  λ p.
      let (c, parts) = encode_parts h p.0 p.1 in
      (c, (encode_addr-IsAddr h.atyp h.addr parts.0 parts.1).0),
  λ p. let (ab, e) = IsAddr-encode_addr p.1 in (layout h ab, encode-layout h ab t p.0 e),
)

-- With a token of 16 bytes, the output of `Encode` has 21 bytes beside the address (and its length, for
-- a name), and at most `MaxHeaderLen`, 277.
pub length-encode :
    (h : Header) (bs : Bytes)
    → length h.token_hmac ≡ 16
    → encode h ≡ ok bs
    → (length bs ≡ 21 + addr_size h.atyp h.addr) × (length bs ≤ max_header_len)
length-encode h bs t e =
    let (c, parts) = encode_parts h bs e in
    let (ab, a, l) = parts in
    let (w, s) = encode_addr-IsAddr h.atyp h.addr ab a in
    rw l (
      omega (arith, length-layout h ab t, IsAddr-size w),
      omega (arith, length-layout h ab t, IsAddr-size w),
    )
