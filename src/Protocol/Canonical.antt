-- ===== src/Protocol/Canonical.antt =====
-- pkg/protocol/header.go: what `Decode` accepts is the encoding of what it returns.
use mathlib.Core.List.{append-nil, append_assoc}
use avangard_private.Common.{
  ℕ, ◌%◌, ◌<◌, ◌≡◌, sym, ap, ◌∙◌, true, [], ◌∷◌, ◌++◌, Bytes, IsBytes, length, get_or, take, drop,
  slice, some, ok, err, inl, inr, arith, Result-cases, Option-cases, read_full, read_full_sound,
  get_or-drop, get_or-drop_next, two_elements, take-append-drop, length-drop, get_or-lt,
  IsBytes-take, IsBytes-drop, length-append, length-take, subst, All-append_left, All-append_right,
  read_full_at,
}
use avangard_private.Protocol.Bounds.{encode-layout}
use avangard_private.Protocol.RoundTrip.{IsHeader, decode-encode}
use avangard_private.Protocol.{
  Header, HeaderError, header_version, encode_addr, decode_domain, decode_addr, encode, decode,
  layout, valid_cmd, big_endian16, uint16,
}

-- A list of nineteen bytes, cut as `Decode` cuts it.
fixed_parts :
    (p : Bytes)
    → length p ≡ 19
    → p ≡ get_or p 0 0 ∷ (slice 1 17 p ++ (get_or p 17 0 ∷ get_or p 18 0 ∷ []))
fixed_parts [] h = absurd (omega arith)
fixed_parts (v ∷ q) h = ap (◌∷◌ v) (
    sym (take-append-drop 16 q)
    ∙ ap (◌++◌ (take 16 q)) (
        two_elements (drop 16 q) 0 (omega (arith, length-drop 16 q))
        ∙ rw (get_or-drop 16 q 0, get_or-drop_next 16 q 0)))

decode_domain_sound :
    (r a r' : Bytes)
    → IsBytes r
    → decode_domain r ≡ ok (a, r')
    → (0 < length a) × (length a < 256) × (r ≡ (length a % 256 ∷ a) ++ r')
unfolding decode_domain
decode_domain_sound [] a r' b h = absurd (unfold read_full in ground arith)
decode_domain_sound (n ∷ r) a r' b h =
    ground (arith, read_full_at 1 (n ∷ []) r, read_full_sound n r a r')

-- The bytes that were read are those of the address.
decode_addr_sound :
    (t : ℕ) (r a r' : Bytes)
    → IsBytes r
    → decode_addr t r ≡ ok (a, r')
    → (ab : Bytes) × (encode_addr t a ≡ ok ab) × (r ≡ ab ++ r')
unfolding decode_addr encode_addr
decode_addr_sound t r a r' b h = elim (Result-cases (encode_addr t a)) [
  | inl (ab, q) ↦ (
    ab,
    q,
    ground
        (arith, read_full_sound 4 r a r', read_full_sound 16 r a r', decode_domain_sound r a r' b),
  )
  | inr (x, q) ↦ absurd (
      ground
        (arith, read_full_sound 4 r a r', read_full_sound 16 r a r', decode_domain_sound r a r' b))
]

abbrev header_of : Bytes → Bytes → Bytes → Header
header_of p a pb = record {
  version = get_or p 0 0;
  token_hmac = slice 1 17 p;
  cmd = get_or p 17 0;
  atyp = get_or p 18 0;
  addr = a;
  port = uint16 pb;
}

-- A successful run of `Decode`, call by call.
record Decoded (r : Bytes) (h : Header) (rest : Bytes) : Type 0 where
  p : Bytes
  r1 : Bytes
  r2 : Bytes
  pb : Bytes
  prefix_read : read_full 19 r ≡ some (p, r1)
  version_ok : get_or p 0 0 ≡ header_version
  cmd_ok : valid_cmd (get_or p 17 0) ≡ true
  addr_read : decode_addr (get_or p 18 0) r1 ≡ ok (h.addr, r2)
  port_read : read_full 2 r2 ≡ some (pb, rest)
  result : h ≡ header_of p h.addr pb

decode-Decoded :
    (r : Bytes) (h : Header) (rest : Bytes) → decode r ≡ ok (h, rest) → Decoded r h rest
unfolding decode
decode-Decoded r h rest e = elim (Option-cases (read_full 19 r)) [
  | inl n ↦ absurd (ground arith)
  | inr (x, q) ↦ elim (Result-cases (decode_addr (get_or x.0 18 0) x.1)) [
    | inr (y, w) ↦ absurd (ground arith)
    | inl (y, w) ↦ elim (Option-cases (read_full 2 y.1)) [
      | inl n ↦ absurd (ground arith)
      | inr (z, v) ↦ record {
        p = x.0;
        r1 = x.1;
        r2 = y.1;
        pb = z.0;
        prefix_read = q;
        version_ok = ground arith;
        cmd_ok = ground arith;
        addr_read = ground arith;
        port_read = ground arith;
        result = ground arith;
      }
    ]
  ]
]

big_endian16-uint16 : (b : Bytes) → IsBytes b → length b ≡ 2 → big_endian16 (uint16 b) ≡ b
big_endian16-uint16 [] w h = absurd (omega arith)
big_endian16-uint16 (x ∷ []) w h = absurd (omega arith)
big_endian16-uint16 (x ∷ y ∷ []) w h = ground arith
big_endian16-uint16 (x ∷ y ∷ z ∷ b) w h = absurd (omega arith)

length-slice_token : (p : Bytes) → length p ≡ 19 → length (slice 1 17 p) ≡ 16
length-slice_token p h = length-take 16 (drop 1 p) (omega (arith, length-drop 1 p))

layout-header_of :
    (p a pb ab : Bytes)
    → length p ≡ 19
    → IsBytes pb
    → length pb ≡ 2
    → layout (header_of p a pb) ab ≡ p ++ (ab ++ pb)
layout-header_of p a pb ab h b k =
    ap (λ x. x ++ (ab ++ big_endian16 (uint16 pb))) (sym (fixed_parts p h))
    ∙ ap (λ x. p ++ (ab ++ x)) (big_endian16-uint16 pb b k)

encode_addr-IsBytes : (t : ℕ) (a ab : Bytes) → encode_addr t a ≡ ok ab → IsBytes ab → IsBytes a
unfolding encode_addr
encode_addr-IsBytes t a ab e b = ground arith

header_of-IsHeader :
    (p a pb : Bytes)
    → length p ≡ 19
    → length pb ≡ 2
    → IsBytes p
    → IsBytes a
    → IsBytes pb
    → IsHeader (header_of p a pb)
header_of-IsHeader p a pb h k b c d = record {
  version_lt = get_or-lt p 0 b;
  token_length = length-slice_token p h;
  token_bytes = IsBytes-take 16 (drop 1 p) (IsBytes-drop 1 p b);
  cmd_lt = get_or-lt p 17 b;
  atyp_lt = get_or-lt p 18 b;
  addr_bytes = c;
  port_lt = omega (arith, get_or-lt pb 0 d, get_or-lt pb 1 d);
}

-- The cut that `Decode` makes, with what each piece holds.
record Cut (r rest : Bytes) (h : Header) : Type 0 where
  bs : Bytes
  encoded : encode h ≡ ok bs
  splits : r ≡ bs ++ rest
  typed : IsHeader h
  version_ok : h.version ≡ header_version

decode-Cut : (r rest : Bytes) (h : Header) → IsBytes r → decode r ≡ ok (h, rest) → Cut r rest h
decode-Cut r rest h b e =
    let d = decode-Decoded r h rest e in
    let (r_eq, p_len) = read_full_sound 19 r d.p d.r1 d.prefix_read in
    let b0 = subst IsBytes r_eq b in
    let bp = All-append_left (λ x. x < 256) d.p d.r1 b0 in
    let b1 = All-append_right (λ x. x < 256) d.p d.r1 b0 in
    let (ab, a, r1_eq) = decode_addr_sound (get_or d.p 18 0) d.r1 h.addr d.r2 b1 d.addr_read in
    let (r2_eq, pb_len) = read_full_sound 2 d.r2 d.pb rest d.port_read in
    let b1' = subst IsBytes r1_eq b1 in
    let ba =
      encode_addr-IsBytes (get_or d.p 18 0) h.addr ab a
        (All-append_left (λ x. x < 256) ab d.r2 b1') in
    let b2 = subst IsBytes r2_eq (All-append_right (λ x. x < 256) ab d.r2 b1') in
    let bb = All-append_left (λ x. x < 256) d.pb rest b2 in
    let k = header_of d.p h.addr d.pb in
    record {
      bs = layout k ab;
      encoded =
          subst (λ x. encode x ≡ ok (layout k ab)) (sym d.result)
            (encode-layout k ab (length-slice_token d.p p_len) d.cmd_ok a);
      splits =
          r_eq
          ∙ ap (◌++◌ d.p) (r1_eq ∙ ap (◌++◌ ab) r2_eq)
          ∙ sym (
              ap (λ x. x ++ rest) (layout-header_of d.p h.addr d.pb ab p_len bb pb_len)
              ∙ append_assoc d.p (ab ++ d.pb) rest
              ∙ ap (◌++◌ d.p) (append_assoc ab d.pb rest));
      typed =
          subst IsHeader (sym d.result) (header_of-IsHeader d.p h.addr d.pb p_len pb_len bp ba bb);
      version_ok = ap (λ x. x.version) d.result ∙ d.version_ok;
    }

-- What `Decode` accepts of a sequence of bytes is, byte for byte, what `Encode` makes of the header that it returns, and
-- the bytes behind it are left over.
pub encode-decode :
    (r rest : Bytes) (h : Header)
    → IsBytes r
    → decode r ≡ ok (h, rest)
    → (bs : Bytes) × (encode h ≡ ok bs) × (r ≡ bs ++ rest)
encode-decode r rest h b e = let c = decode-Cut r rest h b e in (c.bs, c.encoded, c.splits)

-- More bytes behind a header do not change how it is read.
decode-append :
    (r rest more : Bytes) (h : Header)
    → IsBytes r
    → decode r ≡ ok (h, rest)
    → decode (r ++ more) ≡ ok (h, rest ++ more)
decode-append r rest more h b e =
    let c = decode-Cut r rest h b e in
    rw (c.splits, append_assoc c.bs rest more)
      (decode-encode h c.bs (rest ++ more) c.typed c.version_ok c.encoded)

-- On a proper prefix of what `Encode` makes of a header of the current version, `Decode` fails.
pub decode_truncated :
    (h : Header) (xs ys : Bytes) (y : ℕ)
    → IsHeader h
    → h.version ≡ header_version
    → IsBytes xs
    → encode h ≡ ok (xs ++ y ∷ ys)
    → (e : HeaderError) × (decode xs ≡ err e)
decode_truncated h xs ys y w v b e = elim (Result-cases (decode xs)) [
  | inr f ↦ f
  | inl (p, q) ↦
      let whole = decode-encode h (xs ++ y ∷ ys) [] w v e in
      let same = sym (rw append-nil at whole) ∙ decode-append xs p.1 (y ∷ ys) p.0 b q in
      absurd (ground (arith, length-append p.1 (y ∷ ys)))
]

-- Of a sequence of bytes that `Decode` accepts, every field of the header has the type that Go gives it
-- (a token of 16 bytes, a port of 16 bits, the others bytes), the version is the only one, and what is
-- left over is bytes again.
pub decode-IsHeader :
    (r rest : Bytes) (h : Header)
    → IsBytes r
    → decode r ≡ ok (h, rest)
    → IsHeader h × (h.version ≡ header_version) × IsBytes rest
decode-IsHeader r rest h b e =
    let c = decode-Cut r rest h b e in
    (c.typed, c.version_ok, All-append_right (λ x. x < 256) c.bs rest (subst IsBytes c.splits b))
