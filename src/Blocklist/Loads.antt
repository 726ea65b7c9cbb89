-- ===== src/Blocklist/Loads.antt =====
-- pkg/blocklist/rkn.go: `LoadDomains`, `LoadXML` and `Contains`, in any order.
use avangard_private.Common.{
  ℕ, ◌+◌, ◌^◌, ◌<◌, ◌≡◌, ◌≢◌, inl, inr, true, false, List, [], ◌∷◌, Bytes, Any, length, ◌==◌,
  Option, none, some, length-ne-zero, arith,
}
use avangard_private.Blocklist.{
  BlockSet, new_set, has_item, split_lines, XmlToken, normalize, contains, load_domains, add_tokens,
  load_xml,
}
use avangard_private.Blocklist.Found.{
  IsSetOfBits, new_set-IsSetOfBits, Grows, Grows-same, Grows-next, add_lines-Grows,
  has_item-add_lines, add_tokens-Grows, has_item-add_tokens, ListsXml,
}

-- A call of `LoadDomains` or `LoadXML` at a time; a reader that fails gives no text.
pub data Load : Type 0 where
  domains : ℕ → Option Bytes → Load
  xml : ℕ → List XmlToken → Load

module _ (to_lower trim_space : Bytes → Bytes) where
  unfoldable pub load : BlockSet → Load → BlockSet
  load s (domains now text) = (load_domains to_lower trim_space now s text).0
  load s (xml now tokens) = (load_xml to_lower trim_space now s tokens).0

  unfoldable pub load_all : BlockSet → List Load → BlockSet
  load_all s [] = s
  load_all s (l ∷ ls) = load_all (load s l) ls

  -- The normalized host stands in what is loaded: on a line of the text, or in an element for a host,
  -- before an error.
  abbrev pub Lists : Load → Bytes → Type 0
  Lists (domains now none) v = ⊥
  Lists (domains now (some text)) v =
      Any (λ l. normalize to_lower (trim_space l) ≡ v) (split_lines text)
  Lists (xml now tokens) v = ListsXml to_lower trim_space tokens v

  load_domains-Grows :
      (now : ℕ) (s : BlockSet) (text : Option Bytes)
      → IsSetOfBits s
      → Grows s (load_domains to_lower trim_space now s text).0
  unfolding load_domains has_item
  load_domains-Grows now s none w = Grows-same s w
  load_domains-Grows now s (some text) w =
      let g = add_lines-Grows to_lower trim_space s (split_lines text) w in
      record {
        shape = record { some_bits = g.shape.some_bits; all_words = g.shape.all_words };
        keeps = unfold has_item in g.keeps;
      }

  load_xml_bits :
      (now : ℕ) (s : BlockSet) (ts : List XmlToken)
      → let t = (load_xml to_lower trim_space now s ts).0 in
        let u = (add_tokens to_lower trim_space s ts).0 in
        (t.bits ≡ u.bits) × (t.m ≡ u.m) × (t.k ≡ u.k)
  unfolding load_xml
  load_xml_bits now s ts = ground arith

  load-Grows : (s : BlockSet) (l : Load) → IsSetOfBits s → Grows s (load s l)
  unfolding load
  load-Grows s (domains now text) w = load_domains-Grows now s text w
  load-Grows s (xml now ts) w =
      let g = add_tokens-Grows to_lower trim_space s ts w in
      let (b, m, k) = load_xml_bits now s ts in
      record {
        shape = record {
          some_bits = omega (arith, m, g.shape.some_bits);
          all_words = rw (b, m) g.shape.all_words;
        };
        keeps = λ v h. unfold has_item in rw (b, m, k) (unfold has_item in g.keeps v h);
      }

  has_item-load :
      (s : BlockSet) (l : Load) (v : Bytes)
      → IsSetOfBits s
      → v ≢ []
      → Lists l v
      → has_item (load s l) v ≡ true
  unfolding load load_domains
  has_item-load s (domains now none) v w n a = absurd a
  has_item-load s (domains now (some text)) v w n a =
      unfold has_item in has_item-add_lines to_lower trim_space s (split_lines text) v w n a
  has_item-load s (xml now ts) v w n a =
      let (b, m, k) = load_xml_bits now s ts in
      unfold has_item in rw (b, m, k) (has_item-add_tokens to_lower trim_space s ts v w n a)

  load_all-Grows : (s : BlockSet) (ls : List Load) → IsSetOfBits s → Grows s (load_all s ls)
  unfolding load_all
  load_all-Grows s [] w = Grows-same s w
  load_all-Grows s (l ∷ ls) w =
      let g = load-Grows s l w in Grows-next g (load_all-Grows (load s l) ls g.shape)

  has_item-load_all :
      (s : BlockSet) (ls : List Load) (v : Bytes)
      → IsSetOfBits s
      → v ≢ []
      → Any (λ l. Lists l v) ls
      → has_item (load_all s ls) v ≡ true
  unfolding load_all
  has_item-load_all s [] v w n a = absurd a
  has_item-load_all s (l ∷ ls) v w n (inl a) =
      (load_all-Grows (load s l) ls (load-Grows s l w).shape).keeps v (has_item-load s l v w n a)
  has_item-load_all s (l ∷ ls) v w n (inr a) =
      has_item-load_all (load s l) ls v (load-Grows s l w).shape n a

  -- There are no false negatives: in a set of at least one bit (and of less than 2^64 - 63), after any
  -- sequence of loads, a host whose normal form stood in one of them is found, unless that is empty.
  -- This holds for loads that ended in an error, for what they had read.
  pub contains-load_all :
      (m k : ℕ) (ls : List Load) (host : Bytes)
      → 0 < m
      → m + 63 < 2 ^ 64
      → normalize to_lower host ≢ []
      → Any (λ l. Lists l (normalize to_lower host)) ls
      → contains to_lower (load_all (new_set m k) ls) host ≡ true
  unfolding contains
  contains-load_all m k ls host p h n a =
      let some : (length (normalize to_lower host) == 0) ≡ false =
        length-ne-zero (normalize to_lower host) n in
      rw some (
        has_item-load_all (new_set m k) ls (normalize to_lower host) (new_set-IsSetOfBits m k p h) n
          a)
