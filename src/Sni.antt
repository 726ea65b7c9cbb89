-- ===== src/Sni.antt =====
-- pkg/transport/tcp/sni.go: the server name in the first TLS record of a connection. Indexing and
-- slicing are checked, as Go checks them: out of range is the failure `panics`.
pub mod Safe
pub mod Raw
mod Slices
mod Named
pub mod Hello
mod Complete
pub mod Finds
use avangard_private.Common.{
  ℕ, zero, suc, ◌+◌, ◌*◌, ◌-◌, true, false, not, ◌&&◌, ◌||◌, [], ◌∷◌, ◌++◌, Bytes, length, get_or,
  slice, replicate, ltb, leb, ◌==◌, if◌then◌else◌, Option, none, some, Result, ok, err, ◌>>=◌, ◌>>◌,
  guard, read_full,
}

pub data TlsError : Type 0 where
  not_handshake bad_record_length not_client_hello hs_length short_hs bad_session_id bad_cs_len
        bad_cs :
      TlsError
  bad_cm_len bad_cm bad_ext_len bad_ext : TlsError

-- `read_header` and `read_body` are the reader's errors; the loop over the extensions has fuel.
pub data Failure : Type 0 where
  tls : TlsError → Failure
  read_header read_body panics out_of_fuel : Failure

-- `b[i]`
unfoldable pub index : Bytes → ℕ → Result Failure ℕ
index b i = if ltb i (length b) then ok (get_or b i 0) else err panics

-- `b[i:j]`
unfoldable pub cut : Bytes → ℕ → ℕ → Result Failure Bytes
cut b i j = if leb i j && leb j (length b) then ok (slice i j b) else err panics

-- `int(binary.BigEndian.Uint16(b[i : i+2]))`
unfoldable pub uint16_at : Bytes → ℕ → Result Failure ℕ
uint16_at b i = do x ← index b i; y ← index b (i + 1); ok (x * 256 + y)

-- The data of a server_name extension.
unfoldable pub server_name : Bytes → Result Failure Bytes
server_name body = elim (ltb (length body) 2) [
  | true ↦ ok []
  | false ↦ do
    list_len ← uint16_at body 0
    elim (ltb (length body) (2 + list_len)) [
      | true ↦ ok []
      | false ↦ do
        list ← cut body 2 (2 + list_len)
        elim (ltb (length list) 5 || not (get_or list 0 0 == 0)) [
          | true ↦ ok []
          | false ↦ do
            name_len ← uint16_at list 1
            if ltb (length list) (3 + name_len) then ok [] else cut list 3 (3 + name_len)
        ]
    ]
]

-- `for i := 0; i+4 <= len(exts);`
unfoldable pub walk : ℕ → Bytes → ℕ → Result Failure Bytes
walk zero exts i = err out_of_fuel
walk (suc f) exts i = elim (leb (i + 4) (length exts)) [
  | false ↦ ok []
  | true ↦ do
    t ← uint16_at exts i
    l ← uint16_at exts (i + 2)
    guard (leb (i + 4 + l) (length exts)) (tls bad_ext)
    elim (t == 0) [
      | true ↦ do body ← cut exts (i + 4) (i + 4 + l); server_name body
      | false ↦ walk f exts (i + (4 + l))
    ]
]

-- The fields of the ClientHello in front of the extensions: each gives the position behind it.
unfoldable pub skip_session_id : Bytes → Result Failure ℕ
skip_session_id hs = do
  guard (leb (2 + 32 + 1) (length hs)) (tls short_hs)
  sid_len ← index hs (2 + 32)
  guard (leb (2 + 32 + 1 + sid_len) (length hs)) (tls bad_session_id)
  ok (2 + 32 + 1 + sid_len)

unfoldable pub skip_cipher_suites : Bytes → ℕ → Result Failure ℕ
skip_cipher_suites hs p = do
  guard (leb (p + 2) (length hs)) (tls bad_cs_len)
  cs_len ← uint16_at hs p
  guard (leb (p + 2 + cs_len) (length hs)) (tls bad_cs)
  ok (p + 2 + cs_len)

unfoldable pub skip_compression : Bytes → ℕ → Result Failure ℕ
skip_compression hs p = do
  guard (leb (p + 1) (length hs)) (tls bad_cm_len)
  cm_len ← index hs p
  guard (leb (p + 1 + cm_len) (length hs)) (tls bad_cm)
  ok (p + 1 + cm_len)

-- With no room for a length there are no extensions. The fuel is the number of bytes and one.
unfoldable pub extensions : Bytes → ℕ → Result Failure Bytes
extensions hs p = elim (leb (p + 2) (length hs)) [
  | false ↦ ok []
  | true ↦ do
    ext_len ← uint16_at hs p
    guard (leb (p + 2 + ext_len) (length hs)) (tls bad_ext_len)
    exts ← cut hs (p + 2) (p + 2 + ext_len)
    walk (suc (length exts)) exts 0
]

unfoldable pub client_hello : Bytes → Result Failure Bytes
client_hello hs = do
  p1 ← skip_session_id hs
  p2 ← skip_cipher_suites hs p1
  p3 ← skip_compression hs p2
  extensions hs p3

-- The handshake header, and the ClientHello behind it.
unfoldable pub handshake : Bytes → Result Failure Bytes
handshake body = do
  guard (leb 4 (length body) && get_or body 0 0 == 1) (tls not_client_hello)
  a ← index body 1
  b ← index body 2
  c ← index body 3
  let hs_len = a * 65536 + b * 256 + c
  guard (leb (hs_len + 4) (length body)) (tls hs_length)
  hs ← cut body 4 (4 + hs_len)
  client_hello hs

-- What `peekClientHelloSNI` returns, and the bytes that it leaves in the reader.
pub record Peek : Type 0 where
  pub sni : Bytes
  pub raw : Bytes
  pub error : Option Failure
  pub unread : Bytes

abbrev failed : Failure → Bytes → Bytes → Peek
failed e raw unread = record { sni = []; raw = raw; error = some e; unread = unread }

abbrev parsed : Result Failure Bytes → Bytes → Bytes → Peek
parsed (err e) raw unread = failed e raw unread
parsed (ok name) raw unread = record { sni = name; raw = raw; error = none; unread = unread }

-- The record's body. If the reader ends before, the buffer holds what came, and zeros behind it.
unfoldable pub peek_body : Bytes → ℕ → Bytes → Peek
peek_body hdr rec_len r = elim (read_full rec_len r) [
  | none ↦ failed read_body (hdr ++ (r ++ replicate (rec_len - length r) 0)) []
  | some (body, rest) ↦ parsed (handshake body) (hdr ++ body) rest
]

unfoldable pub peek_record : Bytes → Bytes → Peek
peek_record hdr r =
    let rec_len = get_or hdr 3 0 * 256 + get_or hdr 4 0 in
    if not (get_or hdr 0 0 == 0x16)
    then failed (tls not_handshake) hdr r
    else if ltb rec_len 4 || ltb 16384 rec_len
    then failed (tls bad_record_length) hdr r
    else peek_body hdr rec_len r

unfoldable pub peek_client_hello_sni : Bytes → Peek
peek_client_hello_sni r = elim (read_full 5 r) [
  | none ↦ failed read_header [] []
  | some (hdr, rest) ↦ peek_record hdr rest
]
