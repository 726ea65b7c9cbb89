-- ===== src/Tests/Blocks.antt =====
-- pkg/blocklist/rkn.go on a list of two lines, with texts that have no upper case and no space.
use avangard_private.Common.{
  arith, ◌≡◌, ◌≢◌, inl, inr, refl, true, List, [], ◌∷◌, ◌++◌, Bytes, none, some, codes,
}
use avangard_private.Blocklist.{
  new_set, fnv64a, trim_dot, strip_scheme, before, split_lines, element, broken, normalize,
  contains,
}
use avangard_private.Blocklist.Loads.{Load, domains, xml, load_all, contains-load_all}

abbrev same : Bytes → Bytes
same s = s

normalize_url : normalize same (codes "https://a.ru:8080/x") ≡ codes "a.ru"
unfolding normalize before strip_scheme trim_dot
normalize_url = refl

-- An IPv6 address is cut at its first colon.
normalize_ipv6 : normalize same (codes "2001:db8::1") ≡ codes "2001"
unfolding normalize before strip_scheme trim_dot
normalize_ipv6 = refl

fnv64a_a : fnv64a 14695981039346656037 (codes "a") ≡ 12638187200555641996
unfolding fnv64a
fnv64a_a = refl

abbrev loads : List Load
loads =
    domains 5 (some (codes "a.ru" ++ 10 ∷ codes "b.ru."))
    ∷ xml 6 (element (codes "ip") (some (codes "10.0.0.1")) ∷ broken ∷ [])
    ∷ domains 7 none
    ∷ []

b_ru : normalize same (codes "b.ru") ≢ []
unfolding normalize before strip_scheme trim_dot
b_ru e = absurd (cc)

b_ru_listed : normalize same (codes "b.ru.") ≡ normalize same (codes "b.ru")
unfolding normalize before strip_scheme trim_dot
b_ru_listed = refl

split_loads : split_lines (codes "a.ru" ++ 10 ∷ codes "b.ru.") ≡ codes "a.ru" ∷ codes "b.ru." ∷ []
unfolding split_lines
split_loads = refl

contains-load_all_example :
    contains same (load_all same same (new_set 100 3) loads) (codes "b.ru") ≡ true
contains-load_all_example =
    contains-load_all same same 100 3 loads (codes "b.ru") (omega arith) (omega arith) b_ru
      (inl (rw split_loads (inr (inl b_ru_listed))))
