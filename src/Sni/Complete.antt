-- ===== src/Sni/Complete.antt =====
-- pkg/transport/tcp/sni.go: the server name of every well-formed ClientHello that has one is found.
use mathlib.Core.List.{append_assoc, append-nil}
use avangard_private.Common.{
  ℕ, suc, ◌+◌, ◌^◌, ◌<◌, ◌≤◌, ◌≡◌, ◌∙◌, refl, sym, ap, true, List, [], ◌∷◌, ◌++◌, Bytes, length,
  length-append, leb, ok, ◌>>=◌, arith,
}
use avangard_private.Protocol.{big_endian16}
use avangard_private.Sni.{
  walk, skip_session_id, skip_cipher_suites, skip_compression, extensions, client_hello,
}
use avangard_private.Sni.Slices.{index_at, uint16_at-big_endian16, cut_at}
use avangard_private.Sni.Hello.{
  Hello, IsHello, extension, name_data, with_extensions, all_extensions, message,
}
use avangard_private.Sni.Named.{server_name-name_data, walk_named}

skip_session_id_lem :
    (hs vr sid rest : Bytes)
    → hs ≡ vr ++ ((length sid ∷ sid) ++ rest)
    → length vr ≡ 34
    → skip_session_id hs ≡ ok (35 + length sid)
unfolding skip_session_id
skip_session_id_lem hs vr sid rest e l =
    let size : length hs ≡ 35 + (length sid + length rest) =
      omega (
        arith,
        ap length e,
        length-append vr ((length sid ∷ sid) ++ rest),
        length-append sid rest,
      ) in
    let room : leb 35 (length hs) ≡ true = ground arith in
    let fits : leb (35 + length sid) (length hs) ≡ true = ground arith in
    rw room (rw (index_at hs vr (sid ++ rest) (length sid) 34 e l, ◌>>=◌) (rw fits refl))

skip_cipher_suites_lem :
    (hs xs cs rest : Bytes) (p : ℕ)
    → hs ≡ xs ++ ((big_endian16 (length cs) ++ cs) ++ rest)
    → length xs ≡ p
    → length cs < 2 ^ 16
    → skip_cipher_suites hs p ≡ ok (p + 2 + length cs)
unfolding skip_cipher_suites
skip_cipher_suites_lem hs xs cs rest p e l h =
    let size : length hs ≡ p + (2 + (length cs + length rest)) = omega (
      arith,
      ap length e,
      length-append xs ((big_endian16 (length cs) ++ cs) ++ rest),
      length-append cs rest,
    ) in
    let room : leb (p + 2) (length hs) ≡ true = ground arith in
    let fits : leb (p + 2 + length cs) (length hs) ≡ true = ground arith in
    rw room
      (rw (uint16_at-big_endian16 hs xs (cs ++ rest) (length cs) p e l h, ◌>>=◌) (rw fits refl))

skip_compression_lem :
    (hs xs cm rest : Bytes) (p : ℕ)
    → hs ≡ xs ++ ((length cm ∷ cm) ++ rest)
    → length xs ≡ p
    → skip_compression hs p ≡ ok (p + 1 + length cm)
unfolding skip_compression
skip_compression_lem hs xs cm rest p e l =
    let size : length hs ≡ p + (1 + (length cm + length rest)) =
      omega
        (arith, ap length e, length-append xs ((length cm ∷ cm) ++ rest), length-append cm rest) in
    let room : leb (p + 1) (length hs) ≡ true = ground arith in
    let fits : leb (p + 1 + length cm) (length hs) ≡ true = ground arith in
    rw room (rw (index_at hs xs (cm ++ rest) (length cm) p e l, ◌>>=◌) (rw fits refl))

extensions_lem :
    (hs xs exts : Bytes) (p : ℕ)
    → hs ≡ xs ++ (big_endian16 (length exts) ++ exts)
    → length xs ≡ p
    → length exts < 2 ^ 16
    → extensions hs p ≡ walk (suc (length exts)) exts 0
unfolding extensions
extensions_lem hs xs exts p e l h =
    let n = length exts in
    let size : length hs ≡ p + (2 + n) =
      omega (arith, ap length e, length-append xs (big_endian16 n ++ exts)) in
    let room : leb (p + 2) (length hs) ≡ true = ground arith in
    let fits : leb (p + 2 + n) (length hs) ≡ true = ground arith in
    let whole =
      cut_at hs (xs ++ big_endian16 n) exts [] (p + 2) (p + 2 + n)
        (e
          ∙ sym (append_assoc xs (big_endian16 n) exts)
          ∙ ap (λ x. (xs ++ big_endian16 n) ++ x) (sym (append-nil exts)))
        (omega (arith, length-append xs (big_endian16 n))) refl in
    rw (room, extensions)
      (rw (uint16_at-big_endian16 hs xs exts n p e l h, ◌>>=◌) (rw fits (rw (whole, ◌>>=◌) refl)))

length-with_extensions :
    (es : List (ℕ × Bytes)) (rest : Bytes)
    → length es + length rest ≤ length (with_extensions es rest)
length-with_extensions [] rest = omega arith
length-with_extensions ((t, b) ∷ es) rest =
    omega (arith, length-with_extensions es rest, length-append b (with_extensions es rest))

walk-all_extensions :
    (h : Hello)
    → IsHello h
    → length (all_extensions h) < 2 ^ 14
    → walk (suc (length (all_extensions h))) (all_extensions h) 0 ≡ ok h.name
walk-all_extensions h w k =
    let own = extension 0 (name_data h.name) ++ h.after in
    let count = length-with_extensions h.extensions_before own in
    let size = length-append (name_data h.name) h.after in
    walk_named h.extensions_before (suc (length (all_extensions h))) 0 (all_extensions h) []
      (name_data h.name) h.after h.name (omega (arith, count)) w.others
      (server_name-name_data h.name w.name_length (omega (arith, count, size))) refl refl
      (omega arith)

length-message :
    (h : Hello)
    → length (message h)
      ≡ length h.version_random
        + (1 + length h.session_id)
        + (2 + length h.cipher_suites)
        + (1 + length h.compression)
        + (2 + length (all_extensions h))
length-message h =
    let e = big_endian16 (length (all_extensions h)) ++ all_extensions h in
    let c = (length h.compression ∷ h.compression) ++ e in
    let s = (big_endian16 (length h.cipher_suites) ++ h.cipher_suites) ++ c in
    omega (
      arith,
      length-append h.version_random ((length h.session_id ∷ h.session_id) ++ s),
      length-append h.session_id s,
      length-append h.cipher_suites c,
      length-append h.compression e,
    )

pub client_hello-message : (h : Hello) → IsHello h → client_hello (message h) ≡ ok h.name
unfolding client_hello
client_hello-message h w =
    let m = message h in
    let size = length-message h in
    let exts = all_extensions h in
    let a = length h.session_id ∷ h.session_id in
    let b = big_endian16 (length h.cipher_suites) ++ h.cipher_suites in
    let c = length h.compression ∷ h.compression in
    let e = big_endian16 (length exts) ++ exts in
    let at2 = sym (append_assoc h.version_random a (b ++ (c ++ e))) in
    let at3 = at2 ∙ sym (append_assoc (h.version_random ++ a) b (c ++ e)) in
    let at4 = at3 ∙ sym (append_assoc ((h.version_random ++ a) ++ b) c e) in
    let l2 : length (h.version_random ++ a) ≡ 35 + length h.session_id =
      omega (arith, length-append h.version_random a, w.fixed_length) in
    let l3 : length ((h.version_random ++ a) ++ b)
        ≡ 35 + length h.session_id + 2 + length h.cipher_suites =
      omega (arith, l2, length-append (h.version_random ++ a) b) in
    let l4 : length (((h.version_random ++ a) ++ b) ++ c)
        ≡ 35 + length h.session_id + 2 + length h.cipher_suites + 1 + length h.compression =
      omega (arith, l3, length-append ((h.version_random ++ a) ++ b) c) in
    let short : length exts < 2 ^ 14 = omega (arith, size, w.record_length) in
    let p1 =
      skip_session_id_lem m h.version_random h.session_id (b ++ (c ++ e)) refl w.fixed_length in
    let p2 =
      skip_cipher_suites_lem m (h.version_random ++ a) h.cipher_suites (c ++ e) _ at2 l2
        (omega (arith, size, w.record_length)) in
    let p3 = skip_compression_lem m ((h.version_random ++ a) ++ b) h.compression e _ at3 l3 in
    let p4 =
      extensions_lem m (((h.version_random ++ a) ++ b) ++ c) exts _ at4 l4 (omega (arith, short)) in
    rw (p1, ◌>>=◌) (rw (p2, ◌>>=◌) (rw (p3, ◌>>=◌) (p4 ∙ walk-all_extensions h w short)))
