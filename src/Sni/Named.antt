-- ===== src/Sni/Named.antt =====
-- pkg/transport/tcp/sni.go: the loop over the extensions finds the server name.
use mathlib.Core.List.{append_assoc, append-nil}
use avangard_private.Common.{
  ℕ, zero, suc, ◌+◌, ◌^◌, ◌<◌, ◌≤◌, ◌≡◌, ◌≢◌, ◌∙◌, refl, sym, ap, true, false, not, ◌||◌, List, [],
  ◌∷◌, ◌++◌, Bytes, All, length, length-append, get_or, ltb, leb, ◌==◌, ok, ◌>>=◌, arith,
}
use avangard_private.Protocol.{big_endian16}
use avangard_private.Sni.{cut, uint16_at, server_name, walk}
use avangard_private.Sni.Slices.{uint16_at-big_endian16, cut_at}
use avangard_private.Sni.Hello.{extension, name_data, with_extensions}

pub server_name-name_data :
    (name : Bytes)
    → 2 ≤ length name
    → length name + 3 < 2 ^ 16
    → server_name (name_data name) ≡ ok name
unfolding server_name
server_name-name_data name low high =
    let n = length name in
    let d = name_data name in
    let list = (0 ∷ []) ++ (big_endian16 n ++ name) in
    let e1 : ltb (length d) 2 ≡ false = ground arith in
    let e2 = uint16_at-big_endian16 d [] list (n + 3) 0 refl refl high in
    let e3 : ltb (length d) (2 + (n + 3)) ≡ false = ground arith in
    let e4 =
      cut_at d (big_endian16 (n + 3)) list [] 2 (2 + (n + 3))
        (ap (λ x. big_endian16 (n + 3) ++ x) (sym (append-nil list))) refl (omega arith) in
    let e5 : (ltb (length list) 5 || not (get_or list 0 0 == 0)) ≡ false = ground arith in
    let e6 = uint16_at-big_endian16 list (0 ∷ []) name n 1 refl refl (omega arith) in
    let e7 : ltb (length list) (3 + n) ≡ false = ground arith in
    let e8 =
      cut_at list (0 ∷ big_endian16 n) name [] 3 (3 + n)
        (ap (λ x. 0 ∷ (big_endian16 n ++ x)) (sym (append-nil name))) refl (omega arith) in
    rw (e1, server_name)
      (rw (e2, ◌>>=◌) (rw e3 (rw (e4, ◌>>=◌) (rw e5 (rw (e6, ◌>>=◌) (rw e7 e8))))))

-- What the loop reads of one extension.
record Reads (exts : Bytes) (i t : ℕ) (body : Bytes) : Type 0 where
  room : leb (i + 4) (length exts) ≡ true
  type_ok : uint16_at exts i ≡ ok t
  length_ok : uint16_at exts (i + 2) ≡ ok (length body)
  fits : leb (i + 4 + length body) (length exts) ≡ true
  body_ok : cut exts (i + 4) (i + 4 + length body) ≡ ok body

extension-Reads :
    (exts done rest : Bytes) (i t : ℕ) (body : Bytes)
    → exts ≡ done ++ (extension t body ++ rest)
    → length done ≡ i
    → t < 2 ^ 16
    → length exts < 2 ^ 16
    → Reads exts i t body
extension-Reads exts done rest i t body e l ht hl =
    let n = length body in
    let size : length exts ≡ i + (4 + (n + length rest)) = omega (
      arith,
      ap length e,
      length-append done (extension t body ++ rest),
      length-append body rest,
    ) in
    record {
      room = ground arith;
      type_ok = uint16_at-big_endian16 exts done (big_endian16 n ++ (body ++ rest)) t i e l ht;
      length_ok =
          uint16_at-big_endian16 exts (done ++ big_endian16 t) (body ++ rest) n (i + 2)
            (e ∙ sym (append_assoc done (big_endian16 t) _))
            (omega (arith, length-append done (big_endian16 t))) (omega arith);
      fits = ground arith;
      body_ok =
          cut_at exts (done ++ (big_endian16 t ++ big_endian16 n)) body rest (i + 4) (i + 4 + n)
            (e ∙ sym (append_assoc done (big_endian16 t ++ big_endian16 n) _))
            (omega (arith, length-append done (big_endian16 t ++ big_endian16 n))) refl;
    }

pub walk_named :
    (es : List (ℕ × Bytes)) (f i : ℕ) (exts done body after name : Bytes)
    → length es < f
    → All (λ e. (e.0 ≢ 0) × (e.0 < 65536)) es
    → server_name body ≡ ok name
    → exts ≡ done ++ with_extensions es (extension 0 body ++ after)
    → length done ≡ i
    → length exts < 2 ^ 16
    → walk f exts i ≡ ok name
unfolding walk
walk_named es zero i exts done body after name h o s e l k = absurd (omega arith)
walk_named [] (suc f) i exts done body after name h o s e l k =
    let r = extension-Reads exts done after i 0 body e l (omega arith) k in
    rw (r.room, walk) (rw r.type_ok (rw r.length_ok (rw r.fits (rw r.body_ok s))))
walk_named ((t, b) ∷ es) (suc f) i exts done body after name h o s e l k =
    let rest = with_extensions es (extension 0 body ++ after) in
    let r = extension-Reads exts done rest i t b e l (omega (arith, o.0.1)) k in
    let other : (t == 0) ≡ false = ground (arith, o.0.0) in
    rw (r.room, walk)
      (rw r.type_ok (
        rw r.length_ok (
          rw r.fits (
            rw other (
              walk_named es f (i + (4 + length b)) exts (done ++ extension t b) body after name
                (omega arith) o.1 s (e ∙ sym (append_assoc done (extension t b) rest))
                (omega (arith, length-append done (extension t b))) k)))))
