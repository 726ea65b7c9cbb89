-- ===== src/Uri/Queries.antt =====
-- pkg/uri/uri.go: the query of a link, and what is read of it.
use avangard_private.Common.{
  ◌≡◌, ◌⊎◌, ◌∙◌, refl, ap, sym, subst, true, false, [], ◌∷◌, Bytes, IsBytes, length, equal,
  equal_iff, ◌==◌, if◌then◌else◌, some, ok, Bool-cases, inl, inr, codes, arith,
}
use avangard_private.Base64.{url_alphabet, encode_raw, decode_raw}
use avangard_private.Base64.RoundTrip.{decode_raw_url, encode_raw-IsBytes, encode_raw-nonempty}
use avangard_private.Url.{Values, get}
use avangard_private.Url.Query.{AllBytes, get-set, AllBytes-set}
use avangard_private.Uri.{UriConfig, decode_pk, set_if, set_pk, query_of}

set_if-other : (j k v : Bytes) (q : Values) → equal k j ≡ false → get j (set_if k v q) ≡ get j q
unfolding set_if
set_if-other j k v q n = elim (Bool-cases (length v == 0)) [
  | inl y ↦ rw y refl
  | inr m ↦ rw m (get-set j k v q ∙ rw n refl)
]

set_if-same : (k v : Bytes) (q : Values) → get k q ≡ [] → get k (set_if k v q) ≡ v
unfolding set_if
set_if-same k [] q e = e
set_if-same k (c ∷ v) q e =
    let some_value : (length (c ∷ v) == 0) ≡ false = ground arith in
    let same = (equal_iff k k).1 refl in rw some_value (get-set k k (c ∷ v) q ∙ rw same refl)

AllBytes-set_if :
    (k v : Bytes) (q : Values) → IsBytes k → IsBytes v → AllBytes q → AllBytes (set_if k v q)
unfolding set_if
AllBytes-set_if k v q a b h = elim (Bool-cases (length v == 0)) [
  | inl y ↦ rw y h
  | inr n ↦ rw n (AllBytes-set k v q a b h)
]

-- What is written of the server's key.
abbrev pub pk_text : Bytes → Bytes
pk_text server_pub = if length server_pub == 32 then encode_raw url_alphabet server_pub else []

set_pk_lem :
    (server_pub : Bytes) (q : Values)
    → set_pk server_pub q ≡ set_if (codes "pk") (pk_text server_pub) q
unfolding set_if
set_pk_lem server_pub q = elim (Bool-cases (length server_pub == 32)) [
  | inl y ↦ rw y (rw (encode_raw-nonempty url_alphabet server_pub y) refl)
  | inr n ↦ rw n refl
]

decode_pk_raw :
    (t raw : Bytes)
    → (length t == 0) ≡ false
    → decode_raw url_alphabet t ≡ some raw
    → (length raw == 32) ≡ true
    → decode_pk t ≡ ok raw
unfolding decode_pk
decode_pk_raw [] raw n d l = absurd (ground (arith, n))
decode_pk_raw (x ∷ t) raw n d l = rw (d, l) refl

pub decode_pk-pk_text :
    (server_pub : Bytes)
    → IsBytes server_pub
    → (length server_pub ≡ 32) ⊎ (server_pub ≡ [])
    → decode_pk (pk_text server_pub) ≡ ok server_pub
decode_pk-pk_text server_pub b (inr e) = rw e (unfold decode_pk in refl)
decode_pk-pk_text server_pub b (inl e) =
    let full : (length server_pub == 32) ≡ true = ground (arith, e) in
    rw full (
      decode_pk_raw (encode_raw url_alphabet server_pub) server_pub
        (encode_raw-nonempty url_alphabet server_pub full) (decode_raw_url server_pub b) full)

module _ (c : UriConfig) where
  abbrev q1 : Values
  q1 = set_if (codes "sni") c.sni []

  abbrev q2 : Values
  q2 = set_if (codes "fp") c.fingerprint q1

  abbrev q3 : Values
  q3 = set_if (codes "mode") c.mode q2

  abbrev q4 : Values
  q4 = set_if (codes "region") c.region q3

  abbrev q5 : Values
  q5 = set_if (codes "pk") (pk_text c.server_pub) q4

  query_of_lem : query_of c ≡ set_if (codes "tofu") c.tofu_hash q5
  unfolding query_of
  query_of_lem = ap (set_if (codes "tofu") c.tofu_hash) (set_pk_lem c.server_pub q4)

  -- Later steps set other keys.
  past_tofu : (j : Bytes) → equal (codes "tofu") j ≡ false → get j (query_of c) ≡ get j q5
  past_tofu j tofu = ap (get j) query_of_lem ∙ set_if-other j (codes "tofu") c.tofu_hash q5 tofu

  past_pk :
      (j : Bytes)
      → equal (codes "pk") j ≡ false
      → equal (codes "tofu") j ≡ false
      → get j (query_of c) ≡ get j q4
  past_pk j pk tofu = past_tofu j tofu ∙ set_if-other j (codes "pk") (pk_text c.server_pub) q4 pk

  past_region :
      (j : Bytes)
      → equal (codes "region") j ≡ false
      → equal (codes "pk") j ≡ false
      → equal (codes "tofu") j ≡ false
      → get j (query_of c) ≡ get j q3
  past_region j region pk tofu =
      past_pk j pk tofu ∙ set_if-other j (codes "region") c.region q3 region

  past_mode :
      (j : Bytes)
      → equal (codes "mode") j ≡ false
      → equal (codes "region") j ≡ false
      → equal (codes "pk") j ≡ false
      → equal (codes "tofu") j ≡ false
      → get j (query_of c) ≡ get j q2
  past_mode j mode region pk tofu =
      past_region j region pk tofu ∙ set_if-other j (codes "mode") c.mode q2 mode

  -- And so do earlier ones.
  new_q1 : (j : Bytes) → equal (codes "sni") j ≡ false → get j q1 ≡ []
  unfolding get
  new_q1 j sni = set_if-other j (codes "sni") c.sni [] sni

  new_q2 :
      (j : Bytes) → equal (codes "fp") j ≡ false → equal (codes "sni") j ≡ false → get j q2 ≡ []
  new_q2 j fp sni = set_if-other j (codes "fp") c.fingerprint q1 fp ∙ new_q1 j sni

  new_q3 :
      (j : Bytes)
      → equal (codes "mode") j ≡ false
      → equal (codes "fp") j ≡ false
      → equal (codes "sni") j ≡ false
      → get j q3 ≡ []
  new_q3 j mode fp sni = set_if-other j (codes "mode") c.mode q2 mode ∙ new_q2 j fp sni

  new_q4 :
      (j : Bytes)
      → equal (codes "region") j ≡ false
      → equal (codes "mode") j ≡ false
      → equal (codes "fp") j ≡ false
      → equal (codes "sni") j ≡ false
      → get j q4 ≡ []
  new_q4 j region mode fp sni =
      set_if-other j (codes "region") c.region q3 region ∙ new_q3 j mode fp sni

  -- What was set is found.
  pub get-sni : get (codes "sni") (query_of c) ≡ c.sni
  unfolding equal
  get-sni =
      past_mode (codes "sni") refl refl refl refl
      ∙ set_if-other (codes "sni") (codes "fp") c.fingerprint q1 refl
      ∙ set_if-same (codes "sni") c.sni [] (unfold get in refl)

  pub get-fp : get (codes "fp") (query_of c) ≡ c.fingerprint
  unfolding equal
  get-fp =
      past_mode (codes "fp") refl refl refl refl
      ∙ set_if-same (codes "fp") c.fingerprint q1 (new_q1 (codes "fp") refl)

  pub get-mode : get (codes "mode") (query_of c) ≡ c.mode
  unfolding equal
  get-mode =
      past_region (codes "mode") refl refl refl
      ∙ set_if-same (codes "mode") c.mode q2 (new_q2 (codes "mode") refl refl)

  pub get-region : get (codes "region") (query_of c) ≡ c.region
  unfolding equal
  get-region =
      past_pk (codes "region") refl refl
      ∙ set_if-same (codes "region") c.region q3 (new_q3 (codes "region") refl refl refl)

  pub get-pk : get (codes "pk") (query_of c) ≡ pk_text c.server_pub
  unfolding equal
  get-pk =
      past_tofu (codes "pk") refl
      ∙ set_if-same (codes "pk") (pk_text c.server_pub) q4 (new_q4 (codes "pk") refl refl refl refl)

  pub get-tofu : get (codes "tofu") (query_of c) ≡ c.tofu_hash
  unfolding equal
  get-tofu =
      ap (get (codes "tofu")) query_of_lem
      ∙ set_if-same (codes "tofu") c.tofu_hash q5 (
          set_if-other (codes "tofu") (codes "pk") (pk_text c.server_pub) q4 refl
          ∙ new_q4 (codes "tofu") refl refl refl refl)

-- The fields of a link that are texts are bytes.
pub record HasBytes (c : UriConfig) : Type 0 where
  pub uuid : IsBytes c.uuid
  pub sni : IsBytes c.sni
  pub fingerprint : IsBytes c.fingerprint
  pub mode : IsBytes c.mode
  pub region : IsBytes c.region
  pub server_pub : IsBytes c.server_pub
  pub tofu_hash : IsBytes c.tofu_hash
  pub name : IsBytes c.name

pk_text-IsBytes : (s : Bytes) → IsBytes s → IsBytes (pk_text s)
pk_text-IsBytes s b = elim (Bool-cases (length s == 32)) [
  | inl y ↦ rw y (encode_raw-IsBytes s b)
  | inr n ↦ rw n tt
]

pub query_of-AllBytes : (c : UriConfig) → HasBytes c → AllBytes (query_of c)
query_of-AllBytes c b = subst AllBytes (sym (query_of_lem c)) (
    AllBytes-set_if (codes "tofu") c.tofu_hash (q5 c) (omega arith) b.tofu_hash (
      AllBytes-set_if (codes "pk") (pk_text c.server_pub) (q4 c) (omega arith)
        (pk_text-IsBytes c.server_pub b.server_pub)
        (AllBytes-set_if (codes "region") c.region (q3 c) (omega arith) b.region (
          AllBytes-set_if (codes "mode") c.mode (q2 c) (omega arith) b.mode (
            AllBytes-set_if (codes "fp") c.fingerprint (q1 c) (omega arith) b.fingerprint
              (AllBytes-set_if (codes "sni") c.sni [] (omega arith) b.sni tt))))))
