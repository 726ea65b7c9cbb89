-- ===== src/Sni/Finds.antt =====
-- pkg/transport/tcp/sni.go: `peekClientHelloSNI` on a record with a ClientHello.
use mathlib.Core.List.{append-nil}
use avangard_private.Common.{
  ◌+◌, ◌*◌, ◌/◌, ◌%◌, ◌≡◌, refl, sym, ap, true, false, ◌&&◌, ◌||◌, [], ◌∷◌, ◌++◌, Bytes, length,
  get_or, ltb, leb, ◌==◌, none, ok, ◌>>=◌, read_full_at, arith,
}
use avangard_private.Protocol.{big_endian16}
use avangard_private.Sni.{handshake, peek_body, peek_record, peek_client_hello_sni, parsed}
use avangard_private.Sni.Slices.{index_at, cut_at}
use avangard_private.Sni.Hello.{Hello, IsHello, message, handshake_bytes, record_bytes}
use avangard_private.Sni.Complete.{client_hello-message}

handshake-handshake_bytes : (h : Hello) → IsHello h → handshake (handshake_bytes h) ≡ ok h.name
unfolding handshake
handshake-handshake_bytes h w =
    let b = handshake_bytes h in
    let m = message h in
    let n = length m in
    let first : (leb 4 (length b) && get_or b 0 0 == 1) ≡ true = ground arith in
    let b1 = index_at b (1 ∷ []) (n / 256 % 256 ∷ n % 256 ∷ m) (n / 65536) 1 refl refl in
    let b2 = index_at b (1 ∷ n / 65536 ∷ []) (n % 256 ∷ m) (n / 256 % 256) 2 refl refl in
    let b3 = index_at b (1 ∷ n / 65536 ∷ n / 256 % 256 ∷ []) m (n % 256) 3 refl refl in
    let value : n / 65536 * 65536 + n / 256 % 256 * 256 + n % 256 ≡ n = omega arith in
    let fits : leb (n + 4) (length b) ≡ true = ground arith in
    let whole =
      cut_at b (1 ∷ n / 65536 ∷ n / 256 % 256 ∷ n % 256 ∷ []) m [] 4 (4 + n)
        (ap (λ x. 1 ∷ n / 65536 ∷ n / 256 % 256 ∷ n % 256 ∷ x) (sym (append-nil m))) refl refl in
    rw first (
      rw (b1, ◌>>=◌)
        (rw (b2, ◌>>=◌)
          (rw (b3, ◌>>=◌) (rw value (rw fits (rw (whole, ◌>>=◌) (client_hello-message h w)))))))

peek_body-handshake_bytes :
    (h : Hello) (hdr rest : Bytes)
    → IsHello h
    → peek_body hdr (length (handshake_bytes h)) (handshake_bytes h ++ rest)
      ≡ record { sni = h.name; raw = hdr ++ handshake_bytes h; error = none; unread = rest }
unfolding peek_body
peek_body-handshake_bytes h hdr rest w =
    rw (read_full_at (length (handshake_bytes h)) (handshake_bytes h) rest refl, peek_body)
      (rw (handshake-handshake_bytes h w, parsed) refl)

-- Of every record that is one ClientHello whose fields fit their lengths, with a server name of two
-- bytes or more and extensions of any other type in front of it, the name is found; the record is
-- handed on, and what follows it stays in the reader.
pub peek_client_hello_sni-record_bytes :
    (h : Hello) (rest : Bytes)
    → IsHello h
    → peek_client_hello_sni (record_bytes h ++ rest)
      ≡ record { sni = h.name; raw = record_bytes h; error = none; unread = rest }
unfolding peek_client_hello_sni peek_record
peek_client_hello_sni-record_bytes h rest w =
    let n = length (handshake_bytes h) in
    let hdr = 0x16 ∷ 3 ∷ 1 ∷ big_endian16 n in
    let five = read_full_at 5 hdr (handshake_bytes h ++ rest) refl in
    let value : n / 256 % 256 * 256 + n % 256 ≡ n = omega (arith, w.record_length) in
    let size : (ltb n 4 || ltb 16384 n) ≡ false = ground (arith, w.record_length) in
    rw (five, peek_client_hello_sni) (rw value (rw size (peek_body-handshake_bytes h hdr rest w)))
