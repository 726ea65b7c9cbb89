-- ===== src/RegionShield/Selection.antt =====
-- pkg/regionshield/profile.go: `Select` against the three steps that comments in its body number.
use avangard_private.Common.{
  ◌≡◌, ◌≢◌, ◌↔◌, subst, refl, true, false, not, List, [], ◌∷◌, ◌++◌, All, length, ◌==◌,
  if◌then◌else◌, some, arith, Bool-cases, Option-cases, inl, inr, empty, length-ne-zero, ap, sym,
  ◌∙◌,
}
use avangard_private.Mode.{Mode, mode_dns_tunnel}
use avangard_private.Autoprobe.{ProbeResult}
use avangard_private.RegionShield.{
  IspRule, SelectorInput, Decision, isp_override, chain, last_resort, find_rule, is_viable,
  walk_chain, select, overridden,
}

-- No rule stands for the AS, or it prefers no mode.
abbrev pub NoOverride : SelectorInput → Type 0
NoOverride i =
    (r : IspRule) → find_rule i.asn i.profile.isp_overrides ≡ some r → r.preferred_mode ≡ []

-- The decisions that the numbered steps in `Select` allow: the rule of the AS first, then the first
-- viable mode of the chain, then DNS. (The comment above `Select` puts the chain first and layers the rule
-- over it.)
pub data Selected (i : SelectorInput) (d : Decision) : Type 0 where
  by_isp :
      (r : IspRule)
      → find_rule i.asn i.profile.isp_overrides ≡ some r
      → r.preferred_mode ≢ []
      → d ≡ record {
        mode = r.preferred_mode;
        port = if not (r.port == 0) then r.port else 443;
        reason = isp_override;
      }
      → Selected i d
  by_chain :
      (before after : List Mode) (m : Mode)
      → NoOverride i
      → i.profile.fallback_chain ≡ before ++ m ∷ after
      → All (λ x. is_viable x i.probe ≡ false) before
      → is_viable m i.probe ≡ true
      → d ≡ record { mode = m; port = 443; reason = chain }
      → Selected i d
  by_default :
      NoOverride i
      → All (λ x. is_viable x i.probe ≡ false) i.profile.fallback_chain
      → d ≡ record { mode = mode_dns_tunnel; port = 443; reason = last_resort }
      → Selected i d

abbrev by_port : Mode → Decision
by_port m = record { mode = m; port = 443; reason = chain }

abbrev default : Decision
default = record { mode = mode_dns_tunnel; port = 443; reason = last_resort }

walk_chain-first :
    (before : List Mode) (m : Mode) (after : List Mode) (p : ProbeResult)
    → All (λ x. is_viable x p ≡ false) before
    → is_viable m p ≡ true
    → walk_chain (before ++ m ∷ after) p ≡ by_port m
unfolding walk_chain
walk_chain-first [] m after p a v = rw v
walk_chain-first (x ∷ before) m after p a v = rw (a.0) (walk_chain-first before m after p a.1 v)

walk_chain-default :
    (ms : List Mode) (p : ProbeResult)
    → All (λ x. is_viable x p ≡ false) ms
    → walk_chain ms p ≡ default
unfolding walk_chain
walk_chain-default [] p a = refl
walk_chain-default (x ∷ ms) p a = rw (a.0) (walk_chain-default ms p a.1)

-- A chain has a first viable mode, or none.
data Split (ms : List Mode) (p : ProbeResult) : Type 0 where
  found :
      (before after : List Mode) (m : Mode)
      → ms ≡ before ++ m ∷ after
      → All (λ x. is_viable x p ≡ false) before
      → is_viable m p ≡ true
      → Split ms p
  absent : All (λ x. is_viable x p ≡ false) ms → Split ms p

Split-cons :
    {ms : List Mode} {p : ProbeResult} (x : Mode)
    → is_viable x p ≡ false
    → Split ms p
    → Split (x ∷ ms) p
Split-cons x n (found before after m e a v) = found (x ∷ before) after m (ap (◌∷◌ x) e) (n, a) v
Split-cons x n (absent a) = absent (n, a)

Split-chain : (ms : List Mode) (p : ProbeResult) → Split ms p
Split-chain [] p = absent tt
Split-chain (m ∷ ms) p = elim (Bool-cases (is_viable m p)) [
  | inl v ↦ found [] ms m refl tt v
  | inr n ↦ Split-cons m n (Split-chain ms p)
]

select_chain :
    (i : SelectorInput) → NoOverride i → select i ≡ walk_chain i.profile.fallback_chain i.probe
unfolding select
select_chain i n = elim (Option-cases (find_rule i.asn i.profile.isp_overrides)) [
  | inl e ↦ rw (e, overridden)
  | inr (r, e) ↦ rw (e, overridden) (rw (n r e))
]

select-Selected_open : (i : SelectorInput) → NoOverride i → Selected i (select i)
select-Selected_open i n = elim (Split-chain i.profile.fallback_chain i.probe) [
  | found before after m e a v ↦ by_chain before after m n e a v (
      select_chain i n
      ∙ ap (λ ms. walk_chain ms i.probe) e
      ∙ walk_chain-first before m after i.probe a v)
  | absent a ↦
      by_default n a (select_chain i n ∙ walk_chain-default i.profile.fallback_chain i.probe a)
]

select-Selected : (i : SelectorInput) → Selected i (select i)
select-Selected i = elim (Option-cases (find_rule i.asn i.profile.isp_overrides)) [
  | inl e ↦ select-Selected_open i (λ r q. absurd (ground arith))
  | inr (r, e) ↦ elim (Bool-cases (length r.preferred_mode == 0)) [
    | inl z ↦
        select-Selected_open i
          (λ r' q. let same : r' ≡ r = cc in rw same (empty r.preferred_mode (ground arith)))
    | inr z ↦ by_isp r e (λ n. absurd (ground arith)) (unfold select in rw (e, overridden) (rw z))
  ]
]

Selected-select : (i : SelectorInput) (d : Decision) → Selected i d → d ≡ select i
Selected-select i d (by_isp r e n q) =
    q ∙ sym (unfold select in rw (e, overridden) (rw (length-ne-zero r.preferred_mode n)))
Selected-select i d (by_chain before after m n e a v q) =
    q
    ∙ sym (
        select_chain i n
        ∙ ap (λ ms. walk_chain ms i.probe) e
        ∙ walk_chain-first before m after i.probe a v)
Selected-select i d (by_default n a q) =
    q ∙ sym (select_chain i n ∙ walk_chain-default i.profile.fallback_chain i.probe a)

-- `Select` makes the decision that the numbered steps in its body allow, and they allow no other: the rule of the AS if that
-- prefers a mode, at the rule's port or 443; otherwise the first viable mode of the chain, at 443; and
-- DNS at 443 only if no mode of the chain is viable.
pub select_iff : (i : SelectorInput) (d : Decision) → Selected i d ↔ (d ≡ select i)
select_iff i d = (Selected-select i d, λ e. subst (Selected i) (sym e) (select-Selected i))
