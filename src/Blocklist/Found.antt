-- ===== src/Blocklist/Found.antt =====
-- pkg/blocklist/rkn.go: a host that was loaded is always found.
use avangard_private.Common.{
  ℕ, ◌+◌, ◌*◌, ◌^◌, ◌<◌, ◌≡◌, ◌≢◌, ◌⊎◌, inl, inr, refl, true, false, not, ◌&&◌, List, [], ◌∷◌,
  Bytes, Any, length, ◌==◌, none, some, Bool-cases, length-ne-zero, arith,
}
use avangard_private.Bitset.{round_up}
use avangard_private.Bitset.Laws.{
  Fits, test_rounds-set_rounds, test_rounds-set_rounds_mono, length-set_rounds, length-make_words,
  round_up_lem,
}
use avangard_private.Blocklist.{
  BlockSet, new_set, idx, add, has_item, before, ends_host, is_colon, has_hash, XmlToken, element,
  other, broken, normalize, add_line, add_lines, is_listed, add_value, add_tokens,
}

-- The words hold m bits, and there are some.
pub record IsSetOfBits (s : BlockSet) : Type 0 where
  pub some_bits : 0 < s.m
  pub all_words : length s.bits * 64 ≡ s.m

pub new_set-IsSetOfBits : (m k : ℕ) → 0 < m → m + 63 < 2 ^ 64 → IsSetOfBits (new_set m k)
unfolding new_set
new_set-IsSetOfBits m k p h =
    let (whole, low, high) = round_up_lem m h in
    record { some_bits = omega arith; all_words = length-make_words (round_up m) whole }

-- `s'` is in shape, and has all that `s` has.
pub record Grows (s s' : BlockSet) : Type 0 where
  pub shape : IsSetOfBits s'
  pub keeps : (v : Bytes) → has_item s v ≡ true → has_item s' v ≡ true

pub Grows-same : (s : BlockSet) → IsSetOfBits s → Grows s s
Grows-same s w = record { shape = w; keeps = λ v h. h }

pub Grows-next : {s t u : BlockSet} → Grows s t → Grows t u → Grows s u
Grows-next g h = record { shape = h.shape; keeps = λ v e. h.keeps v (g.keeps v e) }

idx-Fits : (s : BlockSet) (v : Bytes) → IsSetOfBits s → Fits (idx v s.m) s.bits
unfolding idx
idx-Fits s v w i = omega (arith, w.some_bits, w.all_words)

add-Grows : (s : BlockSet) (v : Bytes) → IsSetOfBits s → Grows s (add s v)
unfolding add has_item
add-Grows s v w = record {
  shape = record {
    some_bits = w.some_bits;
    all_words = omega (arith, length-set_rounds (idx v s.m) s.k 0 s.bits, w.all_words);
  };
  keeps =
      λ u h. test_rounds-set_rounds_mono (idx u s.m) (idx v s.m) s.k s.k s.bits (idx-Fits s v w) h;
}

has_item-add : (s : BlockSet) (v : Bytes) → IsSetOfBits s → has_item (add s v) v ≡ true
unfolding add has_item
has_item-add s v w = test_rounds-set_rounds (idx v s.m) s.k 0 s.bits (idx-Fits s v w)

-- A normalized host never starts with '#'.
has_hash-before : (s : Bytes) → has_hash (before is_colon (before ends_host s)) ≡ false
unfolding before
has_hash-before [] = refl
has_hash-before (x ∷ s) = ground arith

module _ (to_lower trim_space : Bytes → Bytes) where
  has_hash-normalize : (s : Bytes) → has_hash (normalize to_lower s) ≡ false
  unfolding normalize
  has_hash-normalize s = has_hash-before _

  add_line-Grows :
      (s : BlockSet) (l : Bytes) → IsSetOfBits s → Grows s (add_line to_lower trim_space s l)
  unfolding add_line
  add_line-Grows s l w =
      let v = normalize to_lower (trim_space l) in
      elim (Bool-cases (not (length v == 0) && not (has_hash v))) [
        | inl e ↦ rw e (add-Grows s v w)
        | inr e ↦ rw e (Grows-same s w)
      ]

  has_item-add_line :
      (s : BlockSet) (l v : Bytes)
      → IsSetOfBits s
      → normalize to_lower (trim_space l) ≡ v
      → v ≢ []
      → has_item (add_line to_lower trim_space s l) v ≡ true
  unfolding add_line
  has_item-add_line s l v w e n =
      let u = normalize to_lower (trim_space l) in
      let some : (length v == 0) ≡ false = length-ne-zero v n in
      let test : (not (length u == 0) && not (has_hash u)) ≡ true =
        ground (arith, e, has_hash-normalize (trim_space l)) in
      rw test (rw e (has_item-add s v w))

  pub add_lines-Grows :
      (s : BlockSet) (ls : List Bytes)
      → IsSetOfBits s
      → Grows s (add_lines to_lower trim_space s ls)
  unfolding add_lines
  add_lines-Grows s [] w = Grows-same s w
  add_lines-Grows s (l ∷ ls) w =
      let g = add_line-Grows s l w in
      Grows-next g (add_lines-Grows (add_line to_lower trim_space s l) ls g.shape)

  pub has_item-add_lines :
      (s : BlockSet) (ls : List Bytes) (v : Bytes)
      → IsSetOfBits s
      → v ≢ []
      → Any (λ l. normalize to_lower (trim_space l) ≡ v) ls
      → has_item (add_lines to_lower trim_space s ls) v ≡ true
  unfolding add_lines
  has_item-add_lines s [] v w n a = absurd a
  has_item-add_lines s (l ∷ ls) v w n (inl e) =
      let s' = add_line to_lower trim_space s l in
      (add_lines-Grows s' ls (add_line-Grows s l w).shape).keeps v (has_item-add_line s l v w e n)
  has_item-add_lines s (l ∷ ls) v w n (inr a) =
      has_item-add_lines (add_line to_lower trim_space s l) ls v (add_line-Grows s l w).shape n a

  add_value-Grows :
      (s : BlockSet) (x : Bytes) → IsSetOfBits s → Grows s (add_value to_lower trim_space s x)
  unfolding add_value
  add_value-Grows s x w =
      let v = normalize to_lower (trim_space x) in
      elim (Bool-cases (not (length v == 0))) [
        | inl e ↦ rw e (add-Grows s v w)
        | inr e ↦ rw e (Grows-same s w)
      ]

  has_item-add_value :
      (s : BlockSet) (x v : Bytes)
      → IsSetOfBits s
      → normalize to_lower (trim_space x) ≡ v
      → v ≢ []
      → has_item (add_value to_lower trim_space s x) v ≡ true
  unfolding add_value
  has_item-add_value s x v w e n =
      let some : (length v == 0) ≡ false = length-ne-zero v n in rw e (rw some (has_item-add s v w))

  pub add_tokens-Grows :
      (s : BlockSet) (ts : List XmlToken)
      → IsSetOfBits s
      → Grows s (add_tokens to_lower trim_space s ts).0
  unfolding add_tokens
  add_tokens-Grows s [] w = Grows-same s w
  add_tokens-Grows s (broken ∷ ts) w = Grows-same s w
  add_tokens-Grows s (other ∷ ts) w = add_tokens-Grows s ts w
  add_tokens-Grows s (element name none ∷ ts) w = elim (Bool-cases (is_listed to_lower name)) [
    | inl e ↦ rw e (Grows-same s w)
    | inr e ↦ rw e (add_tokens-Grows s ts w)
  ]
  add_tokens-Grows s (element name (some x) ∷ ts) w = elim (Bool-cases (is_listed to_lower name)) [
    | inl e ↦
        let g = add_value-Grows s x w in
        rw (e, add_tokens)
          (Grows-next g (add_tokens-Grows (add_value to_lower trim_space s x) ts g.shape))
    | inr e ↦ rw (e, add_tokens) (add_tokens-Grows s ts w)
  ]

  -- One of the elements that are read before the first error lists `v`.
  abbrev pub ListsXml : List XmlToken → Bytes → Type 0
  ListsXml [] v = ⊥
  ListsXml (broken ∷ ts) v = ⊥
  ListsXml (other ∷ ts) v = ListsXml ts v
  ListsXml (element name none ∷ ts) v = (is_listed to_lower name ≡ false) × ListsXml ts v
  ListsXml (element name (some x) ∷ ts) v =
      ((is_listed to_lower name ≡ true) × (normalize to_lower (trim_space x) ≡ v)) ⊎ ListsXml ts v

  pub has_item-add_tokens :
      (s : BlockSet) (ts : List XmlToken) (v : Bytes)
      → IsSetOfBits s
      → v ≢ []
      → ListsXml ts v
      → has_item (add_tokens to_lower trim_space s ts).0 v ≡ true
  unfolding add_tokens
  has_item-add_tokens s [] v w n a = absurd a
  has_item-add_tokens s (broken ∷ ts) v w n a = absurd a
  has_item-add_tokens s (other ∷ ts) v w n a = has_item-add_tokens s ts v w n a
  has_item-add_tokens s (element name none ∷ ts) v w n (e, a) =
      rw e (has_item-add_tokens s ts v w n a)
  has_item-add_tokens s (element name (some x) ∷ ts) v w n (inl (l, e)) =
      let s' = add_value to_lower trim_space s x in
      rw (l, add_tokens)
        ((add_tokens-Grows s' ts (add_value-Grows s x w).shape).keeps v
          (has_item-add_value s x v w e n))
  has_item-add_tokens s (element name (some x) ∷ ts) v w n (inr a) =
      elim (Bool-cases (is_listed to_lower name)) [
        | inl e ↦
            rw (e, add_tokens)
              (has_item-add_tokens (add_value to_lower trim_space s x) ts v
                (add_value-Grows s x w).shape n a)
        | inr e ↦ rw (e, add_tokens) (has_item-add_tokens s ts v w n a)
      ]
