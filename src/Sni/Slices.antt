-- ===== src/Sni/Slices.antt =====
-- pkg/transport/tcp/sni.go: indexing, slicing and 16-bit numbers where the bytes are known.
use avangard_private.Common.{
  ℕ, suc, ◌+◌, ◌*◌, ◌-◌, ◌/◌, ◌%◌, ◌^◌, ◌<◌, ◌≡◌, ap, true, ◌&&◌, ◌∷◌, ◌++◌, Bytes, length,
  length-append, get_or-append_at, get_or-append_next, take-append_at, drop-append_at, take, drop,
  ltb, leb, ok, arith,
}
use avangard_private.Protocol.{big_endian16}
use avangard_private.Sni.{index, cut, uint16_at}

pub index_at : (b xs ys : Bytes) (x i : ℕ) → b ≡ xs ++ x ∷ ys → length xs ≡ i → index b i ≡ ok x
unfolding index
index_at b xs ys x i e l = rw e (
    let within : ltb i (length (xs ++ x ∷ ys)) ≡ true = ground (arith, length-append xs (x ∷ ys)) in
    rw within (ap ok (get_or-append_at xs x ys i 0 l)))

pub index_next :
    (b xs ys : Bytes) (x y i : ℕ) → b ≡ xs ++ x ∷ y ∷ ys → length xs ≡ i → index b (i + 1) ≡ ok y
unfolding index
index_next b xs ys x y i e l = rw e (
    let within : ltb (i + 1) (length (xs ++ x ∷ y ∷ ys)) ≡ true =
      ground (arith, length-append xs (x ∷ y ∷ ys)) in
    let next : i + 1 ≡ suc i = omega arith in
    rw within (rw next (ap ok (get_or-append_next xs x y ys i 0 l))))

pub uint16_at-big_endian16 :
    (b xs ys : Bytes) (n i : ℕ)
    → b ≡ xs ++ (big_endian16 n ++ ys)
    → length xs ≡ i
    → n < 2 ^ 16
    → uint16_at b i ≡ ok n
unfolding uint16_at
uint16_at-big_endian16 b xs ys n i e l h =
    let value : n / 256 % 256 * 256 + n % 256 ≡ n = omega arith in
    rw (index_at b xs (n % 256 ∷ ys) (n / 256 % 256) i e l)
      (rw (index_next b xs ys (n / 256 % 256) (n % 256) i e l) (ap ok value))

pub cut_at :
    (b xs ys zs : Bytes) (i j : ℕ)
    → b ≡ xs ++ (ys ++ zs)
    → length xs ≡ i
    → i + length ys ≡ j
    → cut b i j ≡ ok ys
unfolding cut
cut_at b xs ys zs i j e l k = rw e (
    let within : (leb i j && leb j (length (xs ++ (ys ++ zs)))) ≡ true =
      ground (arith, length-append xs (ys ++ zs), length-append ys zs) in
    let same : take (j - i) (drop i (xs ++ (ys ++ zs))) ≡ ys =
      rw (drop-append_at xs (ys ++ zs) i l) (take-append_at ys zs (j - i) (omega arith)) in
    rw within (ap ok same))
