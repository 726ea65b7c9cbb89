-- ===== src/Sni/Raw.antt =====
-- pkg/transport/tcp/sni.go: the bytes that are handed on with the server name.
use mathlib.Core.List.{append_assoc}
use avangard_private.Common.{
  ℕ, ◌+◌, ◌*◌, ◌-◌, ◌<◌, ◌≡◌, ◌∙◌, refl, sym, ap, subst, inl, inr, not, ◌||◌, [], ◌++◌, Bytes,
  length, length-append, get_or, replicate, ltb, ◌==◌, Bool-cases, some, Result, ok, err, read_full,
  read_full_sound, read_full-none, arith, Option-cases,
}
use avangard_private.Sni.{
  Failure, read_header, read_body, handshake, Peek, peek_body, peek_record, peek_client_hello_sni,
  parsed, failed, tls, not_handshake, bad_record_length,
}

-- What is handed on and what is left in the reader make up the stream `r`; or the record's header
-- did not come in, and nothing is handed on; or its body did not, and then it is handed on with zeros
-- for the bytes that are missing.
pub data HandsOn (r : Bytes) (p : Peek) : Type 0 where
  whole : p.raw ++ p.unread ≡ r → 0 < length p.raw → HandsOn r p
  nothing : p.raw ≡ [] → p.error ≡ some read_header → HandsOn r p
  padded :
      (k : ℕ)
      → 0 < k
      → p.raw ≡ r ++ replicate k 0
      → p.unread ≡ []
      → p.error ≡ some read_body
      → HandsOn r p

parsed-raw :
    (x : Result Failure Bytes) (raw unread : Bytes)
    → (parsed x raw unread).raw ++ (parsed x raw unread).unread ≡ raw ++ unread
parsed-raw (ok a) raw unread = refl
parsed-raw (err e) raw unread = refl

parsed-raw_length :
    (x : Result Failure Bytes) (raw unread : Bytes) → length (parsed x raw unread).raw ≡ length raw
parsed-raw_length (ok a) raw unread = refl
parsed-raw_length (err e) raw unread = refl

HandsOn-eq : (r : Bytes) (p q : Peek) → p ≡ q → HandsOn r q → HandsOn r p
HandsOn-eq r p q e h = subst (HandsOn r) (sym e) h

peek_body-HandsOn :
    (hdr : Bytes) (n : ℕ) (r : Bytes) → length hdr ≡ 5 → HandsOn (hdr ++ r) (peek_body hdr n r)
unfolding peek_body
peek_body-HandsOn hdr n r l = elim (Option-cases (read_full n r)) [
  | inl c ↦
      HandsOn-eq (hdr ++ r) (peek_body hdr n r)
        (failed read_body (hdr ++ (r ++ replicate (n - length r) 0)) []) (rw (c, peek_body))
        (padded (n - length r) (omega (arith, read_full-none n r c)) (sym (append_assoc hdr r _))
          refl refl)
  | inr (y, c) ↦
      HandsOn-eq (hdr ++ r) (peek_body hdr n r) (parsed (handshake y.0) (hdr ++ y.0) y.1)
        (rw (c, peek_body))
        (whole
          (parsed-raw (handshake y.0) (hdr ++ y.0) y.1
            ∙ append_assoc hdr y.0 y.1
            ∙ ap (◌++◌ hdr) (sym (read_full_sound n r y.0 y.1 c).0))
          (rw (parsed-raw_length (handshake y.0) (hdr ++ y.0) y.1)
            (omega (arith, length-append hdr y.0))))
]

peek_record-HandsOn : (hdr r : Bytes) → length hdr ≡ 5 → HandsOn (hdr ++ r) (peek_record hdr r)
unfolding peek_record
peek_record-HandsOn hdr r l =
    let n = get_or hdr 3 0 * 256 + get_or hdr 4 0 in
    elim (Bool-cases (not (get_or hdr 0 0 == 0x16))) [
      | inl a ↦
          HandsOn-eq (hdr ++ r) (peek_record hdr r) (failed (tls not_handshake) hdr r) (rw a)
            (whole refl (omega arith))
      | inr a ↦ elim (Bool-cases (ltb n 4 || ltb 16384 n)) [
        | inl b ↦
            HandsOn-eq (hdr ++ r) (peek_record hdr r) (failed (tls bad_record_length) hdr r)
              (rw (a, b)) (whole refl (omega arith))
        | inr b ↦
            HandsOn-eq (hdr ++ r) (peek_record hdr r) (peek_body hdr n r) (rw (a, b))
              (peek_body-HandsOn hdr n r l)
      ]
    ]

-- Of every stream one of three things holds: some of it is handed on and the rest is left in the
-- reader; the record's header did not come in, and nothing is handed on; or the record's body did not,
-- and the stream is handed on with zeros for the missing bytes.
pub peek_client_hello_sni-HandsOn : (r : Bytes) → HandsOn r (peek_client_hello_sni r)
unfolding peek_client_hello_sni
peek_client_hello_sni-HandsOn r = elim (Option-cases (read_full 5 r)) [
  | inl e ↦
      HandsOn-eq r (peek_client_hello_sni r) (failed read_header [] [])
        (rw (e, peek_client_hello_sni)) (nothing refl refl)
  | inr (x, e) ↦
      HandsOn-eq r (peek_client_hello_sni r) (peek_record x.0 x.1) (rw (e, peek_client_hello_sni)) (
        subst (λ s. HandsOn s (peek_record x.0 x.1)) (sym (read_full_sound 5 r x.0 x.1 e).0)
          (peek_record-HandsOn x.0 x.1 (read_full_sound 5 r x.0 x.1 e).1))
]
