-- ===== src/Sni/Safe.antt =====
-- pkg/transport/tcp/sni.go: no index or slice is out of range, and the loop ends.
use avangard_private.Common.{
  ℕ, zero, suc, ◌+◌, ◌*◌, ◌-◌, ◌≤◌, ◌<◌, ◌≡◌, refl, inl, inr, true, false, not, ◌&&◌, ◌||◌, [],
  ◌++◌, Bytes, length, length-take, length-drop, drop, ltb, leb, ◌==◌, Bool-cases, Option, none,
  some, Result, ok, err, ◌>>=◌, ◌>>◌, guard, get_or, if◌then◌else◌, Bool, read_full, arith,
  Option-cases,
}
use avangard_private.Sni.{
  Failure, panics, out_of_fuel, index, cut, uint16_at, server_name, walk, skip_session_id,
  skip_cipher_suites, skip_compression, extensions, client_hello, handshake, peek_body, peek_record,
  peek_client_hello_sni, parsed,
}

-- A failure that the code reports as an error.
abbrev pub IsReported : Failure → Type 0
IsReported panics = ⊥
IsReported out_of_fuel = ⊥
IsReported _ = Unit

-- A run that gives a value of which `P` holds, or an error that the code reports.
abbrev pub Safely {ℓ} : {A : Type ℓ} → (A → Type 0) → Result Failure A → Type 0
Safely P (ok a) = P a
Safely P (err e) = IsReported e

abbrev Always : Bytes → Type 0
Always _ = Unit

Safely-bind {ℓ κ} :
    {A : Type ℓ} {B : Type κ} (Q : A → Type 0) (P : B → Type 0) (m : Result Failure A)
    (f : A → Result Failure B)
    → Safely Q m
    → ((a : A) → Q a → Safely P (f a))
    → Safely P (m >>= f)
Safely-bind Q P (ok a) f q k = k a q
Safely-bind Q P (err e) f q k = q

Safely-guard {κ} :
    {B : Type κ} (P : B → Type 0) (c : Bool) (e : Failure) (m : Result Failure B)
    → IsReported e
    → (c ≡ true → Safely P m)
    → Safely P (guard c e >> m)
Safely-guard P true e m r k = k refl
Safely-guard P false e m r k = r

abbrev Whatever : ℕ → Type 0
Whatever _ = Unit

index-Safely : (b : Bytes) (i : ℕ) → i < length b → Safely Whatever (index b i)
unfolding index
index-Safely b i h = let e : ltb i (length b) ≡ true = ground arith in rw e tt

uint16_at-Safely : (b : Bytes) (i : ℕ) → i + 2 ≤ length b → Safely Whatever (uint16_at b i)
unfolding uint16_at
uint16_at-Safely b i h =
    Safely-bind Whatever Whatever (index b i) _ (index-Safely b i (omega arith)) λ x _.
      Safely-bind Whatever Whatever (index b (i + 1)) _ (index-Safely b (i + 1) (omega arith))
        λ y _. tt

cut-Safely :
    (b : Bytes) (i j : ℕ) → i ≤ j → j ≤ length b → Safely (λ s. length s ≡ j - i) (cut b i j)
unfolding cut
cut-Safely b i j h k =
    let e : (leb i j && leb j (length b)) ≡ true = ground arith in
    rw e (length-take (j - i) (drop i b) (omega (arith, length-drop i b)))

cut-Always : (b : Bytes) (i j : ℕ) → i ≤ j → j ≤ length b → Safely Always (cut b i j)
unfolding cut
cut-Always b i j h k = let e : (leb i j && leb j (length b)) ≡ true = ground arith in rw e tt

-- A test by `elim`, with its outcome in each branch.
test-Safely {κ} :
    {B : Type κ} (P : B → Type 0) (c : Bool) (x y : Result Failure B)
    → (c ≡ true → Safely P x)
    → (c ≡ false → Safely P y)
    → Safely P (elim c [ true ↦ x | false ↦ y ])
test-Safely P true x y h k = h refl
test-Safely P false x y h k = k refl

name_in_list-Safely :
    (list : Bytes)
    → 3 ≤ length list
    → Safely Always (do
      name_len ← uint16_at list 1
      if ltb (length list) (3 + name_len) then ok [] else cut list 3 (3 + name_len))
name_in_list-Safely list h =
    Safely-bind Whatever Always (uint16_at list 1) _ (uint16_at-Safely list 1 (omega arith)) λ n _.
      elim (Bool-cases (ltb (length list) (3 + n))) [
        | inl e ↦ rw e tt
        | inr e ↦ rw e (cut-Always list 3 (3 + n) (omega arith) (ground arith))
      ]

server_name-Safely : (body : Bytes) → Safely Always (server_name body)
unfolding server_name
server_name-Safely body =
    test-Safely Always (ltb (length body) 2) _ _ (λ _. tt)
      λ long.
        Safely-bind Whatever Always (uint16_at body 0) _ (uint16_at-Safely body 0 (ground arith))
          λ n _.
            test-Safely Always (ltb (length body) (2 + n)) _ _ (λ _. tt)
              λ fits.
                Safely-bind (λ s. length s ≡ 2 + n - 2) Always (cut body 2 (2 + n)) _
                  (cut-Safely body 2 (2 + n) (omega arith) (ground arith))
                  λ list l.
                    test-Safely Always (ltb (length list) 5 || not (get_or list 0 0 == 0)) _ _
                      (λ _. tt) λ some. name_in_list-Safely list (ground arith)

-- With as much fuel as there are bytes left, and one, the loop ends.
walk-Safely :
    (f : ℕ) (exts : Bytes) (i : ℕ)
    → i ≤ length exts
    → length exts < f + i
    → Safely Always (walk f exts i)
unfolding walk
walk-Safely zero exts i b h = absurd (omega arith)
walk-Safely (suc f) exts i b h =
    test-Safely Always (leb (i + 4) (length exts)) _ _
      (λ room.
        Safely-bind Whatever Always (uint16_at exts i) _ (uint16_at-Safely exts i (ground arith))
          λ t _.
            Safely-bind Whatever Always (uint16_at exts (i + 2)) _
              (uint16_at-Safely exts (i + 2) (ground arith))
              λ l _. Safely-guard Always (leb (i + 4 + l) (length exts)) _ _ tt λ fits.
                test-Safely Always (t == 0) _ _
                  (λ _.
                    Safely-bind Always Always (cut exts (i + 4) (i + 4 + l)) _
                      (cut-Always exts (i + 4) (i + 4 + l) (omega arith) (ground arith))
                      λ body _. server_name-Safely body)
                  (λ _. walk-Safely f exts (i + (4 + l)) (ground arith) (omega arith)))
      (λ _. tt)

-- The position behind a field lies within the ClientHello.
abbrev Within : Bytes → ℕ → Type 0
Within hs p = p ≤ length hs

skip_session_id-Safely : (hs : Bytes) → Safely (Within hs) (skip_session_id hs)
unfolding skip_session_id
skip_session_id-Safely hs = Safely-guard (Within hs) (leb 35 (length hs)) _ _ tt λ long.
    Safely-bind Whatever (Within hs) (index hs 34) _ (index-Safely hs 34 (ground arith))
      λ n _. Safely-guard (Within hs) (leb (35 + n) (length hs)) _ _ tt λ fits. ground arith

skip_cipher_suites-Safely : (hs : Bytes) (p : ℕ) → Safely (Within hs) (skip_cipher_suites hs p)
unfolding skip_cipher_suites
skip_cipher_suites-Safely hs p = Safely-guard (Within hs) (leb (p + 2) (length hs)) _ _ tt λ long.
    Safely-bind Whatever (Within hs) (uint16_at hs p) _ (uint16_at-Safely hs p (ground arith))
      λ n _. Safely-guard (Within hs) (leb (p + 2 + n) (length hs)) _ _ tt λ fits. ground arith

skip_compression-Safely : (hs : Bytes) (p : ℕ) → Safely (Within hs) (skip_compression hs p)
unfolding skip_compression
skip_compression-Safely hs p = Safely-guard (Within hs) (leb (p + 1) (length hs)) _ _ tt λ long.
    Safely-bind Whatever (Within hs) (index hs p) _ (index-Safely hs p (ground arith))
      λ n _. Safely-guard (Within hs) (leb (p + 1 + n) (length hs)) _ _ tt λ fits. ground arith

extensions-Safely : (hs : Bytes) (p : ℕ) → Safely Always (extensions hs p)
unfolding extensions
extensions-Safely hs p =
    test-Safely Always (leb (p + 2) (length hs)) _ _
      (λ room.
        Safely-bind Whatever Always (uint16_at hs p) _ (uint16_at-Safely hs p (ground arith)) λ n _.
          Safely-guard Always (leb (p + 2 + n) (length hs)) _ _ tt λ fits.
            Safely-bind Always Always (cut hs (p + 2) (p + 2 + n)) _
              (cut-Always hs (p + 2) (p + 2 + n) (omega arith) (ground arith))
              λ exts _. walk-Safely (suc (length exts)) exts 0 (omega arith) (omega arith))
      (λ _. tt)

client_hello-Safely : (hs : Bytes) → Safely Always (client_hello hs)
unfolding client_hello
client_hello-Safely hs =
    Safely-bind (Within hs) Always (skip_session_id hs) _ (skip_session_id-Safely hs) λ p1 _.
      Safely-bind (Within hs) Always (skip_cipher_suites hs p1) _ (skip_cipher_suites-Safely hs p1)
        λ p2 _.
          Safely-bind (Within hs) Always (skip_compression hs p2) _ (skip_compression-Safely hs p2)
            λ p3 _. extensions-Safely hs p3

handshake-Safely : (body : Bytes) → Safely (λ _. Unit) (handshake body)
unfolding handshake
handshake-Safely body =
    Safely-guard Always (leb 4 (length body) && get_or body 0 0 == 1) _ _ tt λ long.
      let four : 4 ≤ length body = ground arith in
      Safely-bind Whatever Always (index body 1) _ (index-Safely body 1 (omega arith)) λ a _.
        Safely-bind Whatever Always (index body 2) _ (index-Safely body 2 (omega arith)) λ b _.
          Safely-bind Whatever Always (index body 3) _ (index-Safely body 3 (omega arith)) λ c _.
            let n = a * 65536 + b * 256 + c in
            Safely-guard Always (leb (n + 4) (length body)) _ _ tt λ fits.
              Safely-bind Always Always (cut body 4 (4 + n)) _
                (cut-Always body 4 (4 + n) (omega arith) (ground arith))
                λ hs _. client_hello-Safely hs

abbrev pub Reports : Option Failure → Type 0
Reports none = Unit
Reports (some e) = IsReported e

parsed-Reports :
    (r : Result Failure Bytes) (raw unread : Bytes)
    → Safely (λ _. Unit) r
    → Reports (parsed r raw unread).error
parsed-Reports (ok a) raw unread s = tt
parsed-Reports (err e) raw unread s = s

peek_body-Reports : (hdr : Bytes) (n : ℕ) (r : Bytes) → Reports (peek_body hdr n r).error
unfolding peek_body
peek_body-Reports hdr n r = elim (Option-cases (read_full n r)) [
  | inl c ↦ rw (c, Reports) tt
  | inr (y, c) ↦
      rw (c, Reports) (parsed-Reports (handshake y.0) (hdr ++ y.0) y.1 (handshake-Safely y.0))
]

peek_record-Reports : (hdr r : Bytes) → Reports (peek_record hdr r).error
unfolding peek_record
peek_record-Reports hdr r =
    let n = get_or hdr 3 0 * 256 + get_or hdr 4 0 in
    elim (Bool-cases (not (get_or hdr 0 0 == 0x16))) [
      | inl a ↦ rw (a, Reports) tt
      | inr a ↦ elim (Bool-cases (ltb n 4 || ltb 16384 n)) [
        | inl b ↦ rw (a, b, Reports) tt
        | inr b ↦ rw (a, b, Reports) (peek_body-Reports hdr n r)
      ]
    ]

-- Whatever bytes a peer sends, no index or slice is out of range and the loop over the extensions
-- ends: the result has a server name or an error of the code's own.
pub peek_client_hello_sni-Reports : (r : Bytes) → Reports (peek_client_hello_sni r).error
unfolding peek_client_hello_sni
peek_client_hello_sni-Reports r = elim (Option-cases (read_full 5 r)) [
  | inl e ↦ rw (e, Reports) tt
  | inr (x, e) ↦ rw (e, Reports) (peek_record-Reports x.0 x.1)
]
