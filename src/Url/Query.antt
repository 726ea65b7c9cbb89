-- ===== src/Url/Query.antt =====
-- net/url: the values of a query, and reading back what was encoded.
use avangard_private.Common.{
  ℕ, ◌<◌, ◌≡◌, ◌∙◌, refl, ap, sym, Bool, true, false, not, ◌&&◌, ◌||◌, [], ◌∷◌, ◌++◌, Bytes,
  IsBytes, All, equal, equal_iff, ltb, ◌==◌, if◌then◌else◌, Bool-cases, inl, inr, arith,
}
use avangard_private.Net.{contains}
use avangard_private.Url.{
  in_query, all, should_escape, hex_digit, escape, unescape, Values, set, get, sorts_before, pair,
  encode_query, cut_or_all, unescaped_pair, parse_pair, parse_pairs, pieces, parse_query,
}
use avangard_private.Url.Escape.{unescape-escape, escape-all}
use avangard_private.Url.Cuts.{
  Lacks, all-append, all_weaken, all-Lacks, contains-Lacks, cut_or_all_at, pieces-Lacks, pieces_at,
}

-- Keys and values are bytes.
abbrev pub AllBytes : Values → Type 0
AllBytes = All (λ kv. IsBytes kv.0 × IsBytes kv.1)

-- None of # & ; = ? @ / nor a control byte.
abbrev pub clean : ℕ → Bool
clean c =
    ltb 32 c
    && not (c == 127)
    && not (c == 35)
    && not (c == 38)
    && not (c == 59)
    && not (c == 61)
    && not (c == 63)
    && not (c == 64)
    && not (c == 47)

kept-clean : (c : ℕ) → should_escape c in_query ≡ false → clean c ≡ true
unfolding should_escape
kept-clean c h = ground (arith, h)

hex_digit-clean : (n : ℕ) → n < 16 → clean (hex_digit n) ≡ true
hex_digit-clean n h = ground (arith, h)

pub escape-clean : (s : Bytes) → IsBytes s → all clean (escape in_query s) ≡ true
escape-clean s b = escape-all clean in_query s refl refl hex_digit-clean kept-clean b

pair_shape : (k v : Bytes) → IsBytes k → IsBytes v → Lacks 38 (pair (k, v)) × Lacks 59 (pair (k, v))
unfolding all
pair_shape k v a b =
    let ck = escape-clean k a in
    let cv = escape-clean v b in
    (
      all-append (λ c. not (c == 38)) (escape in_query k) (61 ∷ escape in_query v)
          (all-Lacks clean 38 (escape in_query k) refl ck)
          (all-Lacks clean 38 (escape in_query v) refl cv),
      all-append (λ c. not (c == 59)) (escape in_query k) (61 ∷ escape in_query v)
          (all-Lacks clean 59 (escape in_query k) refl ck)
          (all-Lacks clean 59 (escape in_query v) refl cv),
    )

-- A piece that is not empty, as `parse_pair` reads it.
parse_pair_open :
    (s : Bytes) (x : ℕ) (t : Bytes) (q : Values)
    → s ≡ x ∷ t
    → contains 59 s ≡ false
    → parse_pair s q
      ≡ unescaped_pair
          (unescape in_query (cut_or_all 61 s).0)
          (unescape in_query (cut_or_all 61 s).1)
          q
unfolding parse_pair
parse_pair_open s x t q e n =
    let m : contains 59 (x ∷ t) ≡ false = ap (contains 59) (sym e) ∙ n in rw e (rw m refl)

append-cons : (xs : Bytes) (y : ℕ) (ys : Bytes) → (x : ℕ) × (t : Bytes) × (xs ++ y ∷ ys ≡ x ∷ t)
append-cons [] y ys = (y, ys, refl)
append-cons (x ∷ xs) y ys = (x, xs ++ y ∷ ys, refl)

pair-cons : (k v : Bytes) → (x : ℕ) × (t : Bytes) × (pair (k, v) ≡ x ∷ t)
pair-cons k v = append-cons (escape in_query k) 61 (escape in_query v)

parse_pair-pair :
    (k v : Bytes) (q : Values) → IsBytes k → IsBytes v → parse_pair (pair (k, v)) q ≡ (k, v) ∷ q
parse_pair-pair k v q a b =
    let (x, t, e) = pair-cons k v in
    let (amp, semi) = pair_shape k v a b in
    let cut : cut_or_all 61 (pair (k, v)) ≡ (escape in_query k, escape in_query v) =
      cut_or_all_at 61 (escape in_query k) (escape in_query v)
        (all-Lacks clean 61 (escape in_query k) refl (escape-clean k a)) in
    parse_pair_open (pair (k, v)) x t q e (contains-Lacks 59 (pair (k, v)) semi)
    ∙ rw cut (rw (unescape-escape in_query k refl a, unescape-escape in_query v refl b) refl)

-- What stands in an encoded query.
abbrev pub query_byte : ℕ → Bool
query_byte c = clean c || c == 38 || c == 61

pair-query_byte : (k v : Bytes) → IsBytes k → IsBytes v → all query_byte (pair (k, v)) ≡ true
unfolding all
pair-query_byte k v a b =
    let weak = λ (s : Bytes) (h : all clean s ≡ true).
      all_weaken clean query_byte s (λ c k. ground (arith, k)) h in
    all-append query_byte (escape in_query k) (61 ∷ escape in_query v)
      (weak (escape in_query k) (escape-clean k a)) (weak (escape in_query v) (escape-clean v b))

pub encode_query-query_byte : (q : Values) → AllBytes q → all query_byte (encode_query q) ≡ true
unfolding encode_query all
encode_query-query_byte [] h = refl
encode_query-query_byte ((k, v) ∷ []) ((a, b), h) = pair-query_byte k v a b
encode_query-query_byte ((k, v) ∷ kv ∷ q) ((a, b), h) =
    all-append query_byte (pair (k, v)) (38 ∷ encode_query (kv ∷ q)) (pair-query_byte k v a b)
      (encode_query-query_byte (kv ∷ q) h)

-- A query that was encoded is read back.
pub parse_query-encode_query : (q : Values) → AllBytes q → parse_query (encode_query q) ≡ q
unfolding parse_query encode_query pieces parse_pair
parse_query-encode_query [] h = refl
parse_query-encode_query ((k, v) ∷ []) ((a, b), h) =
    let (amp, semi) = pair_shape k v a b in
    rw (pieces-Lacks 38 (pair (k, v)) amp) (parse_pair-pair k v [] a b)
parse_query-encode_query ((k, v) ∷ kv ∷ q) ((a, b), h) =
    let (amp, semi) = pair_shape k v a b in
    rw (pieces_at 38 (pair (k, v)) (encode_query (kv ∷ q)) amp) (
      parse_pair-pair k v (parse_pairs (pieces 38 (encode_query (kv ∷ q)))) a b
      ∙ ap (◌∷◌ (k, v)) (parse_query-encode_query (kv ∷ q) h))

if_same : (b : Bool) (x y z : Bytes) → (if b then x else z) ≡ (if b then x else if b then y else z)
if_same true x y z = refl
if_same false x y z = refl

not_both : (i j k : Bytes) → i ≡ j → equal i k ≡ false → equal k j ≡ false
not_both i j k e n = elim (Bool-cases (equal k j)) [
  | inr f ↦ f
  | inl y ↦
      let both = (equal_iff i k).1 (e ∙ sym ((equal_iff k j).0 y)) in
      absurd (ground (arith, both, n))
]

-- The value that was set is found, and those of the other keys are as they were.
pub get-set : (j k v : Bytes) (q : Values) → get j (set k v q) ≡ (if equal k j then v else get j q)
unfolding get set
get-set j k v [] = refl
get-set j k v ((i, w) ∷ q) = elim (Bool-cases (equal i k)) [
  | inl y ↦
      let same : i ≡ k = (equal_iff i k).0 y in rw y (rw same (if_same (equal k j) v w (get j q)))
  | inr n ↦ rw n (elim (Bool-cases (sorts_before k i)) [
    | inl y ↦ rw y refl
    | inr m ↦ rw m (elim (Bool-cases (equal i j)) [
      | inr f ↦ rw f (get-set j k v q)
      | inl y ↦
          let apart : equal k j ≡ false = not_both i j k ((equal_iff i j).0 y) n in
          rw (y, apart) refl
    ])
  ])
]

pub AllBytes-set :
    (k v : Bytes) (q : Values) → IsBytes k → IsBytes v → AllBytes q → AllBytes (set k v q)
unfolding set
AllBytes-set k v [] a b h = ((a, b), tt)
AllBytes-set k v ((i, w) ∷ q) a b (h, hs) = elim (Bool-cases (equal i k)) [
  | inl y ↦ rw y ((a, b), hs)
  | inr n ↦ rw n (elim (Bool-cases (sorts_before k i)) [
    | inl y ↦ rw y ((a, b), (h, hs))
    | inr m ↦ rw m (h, AllBytes-set k v q a b hs)
  ])
]
