-- ===== src/Url/Cuts.antt =====
-- net/url: cutting texts at a byte that some of their parts lack.
use avangard_private.Common.{
  ℕ, ◌≡◌, refl, subst, Bool, true, false, not, [], ◌∷◌, ◌++◌, Bytes, ◌==◌, none, some, Bool-cases,
  inl, inr, arith,
}
use avangard_private.Net.{contains, cut}
use avangard_private.Url.{all, cut_or_all, cut_last, pieces}

-- The text lacks `c`.
abbrev pub Lacks : ℕ → Bytes → Type 0
Lacks c s = all (λ x. not (x == c)) s ≡ true

pub all-append :
    (t : ℕ → Bool) (xs ys : Bytes) → all t xs ≡ true → all t ys ≡ true → all t (xs ++ ys) ≡ true
unfolding all
all-append t [] ys h k = k
all-append t (x ∷ xs) ys h k = ground (arith, h, all-append t xs ys (ground (arith, h)) k)

-- A test that is weaker lets all pass as well.
pub all_weaken :
    (t u : ℕ → Bool) (xs : Bytes)
    → ((c : ℕ) → t c ≡ true → u c ≡ true)
    → all t xs ≡ true
    → all u xs ≡ true
unfolding all
all_weaken t u [] w h = refl
all_weaken t u (x ∷ xs) w h = elim (Bool-cases (t x)) [
  | inl y ↦ rw (w x y) (all_weaken t u xs w (ground (arith, h)))
  | inr n ↦ absurd (ground (arith, h))
]

not_this : (t : ℕ → Bool) (x c : ℕ) → t x ≡ false → t c ≡ true → not (c == x) ≡ true
not_this t x c h k = elim (Bool-cases (c == x)) [
  | inr n ↦ rw n refl
  | inl y ↦
      let same : c ≡ x = ground arith in
      let bad = subst (λ z. t z ≡ true) same k in absurd (ground (arith, h, bad))
]

-- A byte that fails a test which every byte of the text passes.
pub all-Lacks : (t : ℕ → Bool) (x : ℕ) (s : Bytes) → t x ≡ false → all t s ≡ true → Lacks x s
all-Lacks t x s h a = all_weaken t (λ c. not (c == x)) s (λ c k. not_this t x c h k) a

pub contains-Lacks : (c : ℕ) (s : Bytes) → Lacks c s → contains c s ≡ false
unfolding contains all
contains-Lacks c [] h = refl
contains-Lacks c (x ∷ s) h = ground (arith, h, contains-Lacks c s (ground (arith, h)))

pub cut-Lacks : (c : ℕ) (s : Bytes) → Lacks c s → cut c s ≡ none
unfolding cut all
cut-Lacks c [] h = refl
cut-Lacks c (x ∷ s) h = elim (Bool-cases (x == c)) [
  | inl y ↦ absurd (ground (arith, h))
  | inr n ↦ rw n (rw (cut-Lacks c s (ground (arith, h))) refl)
]

pub cut_at : (c : ℕ) (s t : Bytes) → Lacks c s → cut c (s ++ c ∷ t) ≡ some (s, t)
unfolding cut all
cut_at c [] t h = ground arith
cut_at c (x ∷ s) t h = elim (Bool-cases (x == c)) [
  | inl y ↦ absurd (ground (arith, h))
  | inr n ↦ rw n (rw (cut_at c s t (ground (arith, h))) refl)
]

pub cut_or_all-Lacks : (c : ℕ) (s : Bytes) → Lacks c s → cut_or_all c s ≡ (s, [])
cut_or_all-Lacks c s h = rw (cut-Lacks c s h, cut_or_all) refl

pub cut_or_all_at : (c : ℕ) (s t : Bytes) → Lacks c s → cut_or_all c (s ++ c ∷ t) ≡ (s, t)
cut_or_all_at c s t h = rw (cut_at c s t h, cut_or_all) refl

pub cut_last-Lacks : (c : ℕ) (s : Bytes) → Lacks c s → cut_last c s ≡ none
unfolding cut_last all
cut_last-Lacks c [] h = refl
cut_last-Lacks c (x ∷ s) h = elim (Bool-cases (x == c)) [
  | inl y ↦ absurd (ground (arith, h))
  | inr n ↦ rw n (rw (cut_last-Lacks c s (ground (arith, h))) refl)
]

pub cut_last_at : (c : ℕ) (s t : Bytes) → Lacks c t → cut_last c (s ++ c ∷ t) ≡ some (s, t)
unfolding cut_last
cut_last_at c [] t h =
    let here : (c == c) ≡ true = ground arith in rw (cut_last-Lacks c t h, here) refl
cut_last_at c (x ∷ s) t h = rw (cut_last_at c s t h) refl

-- A piece that lacks `c`, alone and in front of others.
pub pieces-Lacks : (c : ℕ) (s : Bytes) → Lacks c s → pieces c s ≡ s ∷ []
unfolding pieces all
pieces-Lacks c [] h = refl
pieces-Lacks c (x ∷ s) h = elim (Bool-cases (x == c)) [
  | inl y ↦ absurd (ground (arith, h))
  | inr n ↦ rw n (rw (pieces-Lacks c s (ground (arith, h))) refl)
]

pub pieces_at : (c : ℕ) (s t : Bytes) → Lacks c s → pieces c (s ++ c ∷ t) ≡ s ∷ pieces c t
unfolding pieces all
pieces_at c [] t h = ground arith
pieces_at c (x ∷ s) t h = elim (Bool-cases (x == c)) [
  | inl y ↦ absurd (ground (arith, h))
  | inr n ↦ rw n (rw (pieces_at c s t (ground (arith, h))) refl)
]
