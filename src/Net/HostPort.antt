-- ===== src/Net/HostPort.antt =====
-- `net.SplitHostPort` takes `net.JoinHostPort` apart.
use avangard_private.Common.{
  ℕ, ◌≡◌, ◌∙◌, refl, false, ◌||◌, [], ◌∷◌, ◌++◌, Bytes, none, some, arith, Bool-cases, inl, inr,
}
use avangard_private.Net.{contains, cut, plain, join_host_port, split_host_port}

contains-append : (c : ℕ) (xs ys : Bytes) → contains c (xs ++ ys) ≡ (contains c xs || contains c ys)
unfolding contains
contains-append c [] ys = refl
contains-append c (x ∷ xs) ys = ground (arith, contains-append c xs ys)

cut-append : (c : ℕ) (xs ys : Bytes) → contains c xs ≡ false → cut c (xs ++ c ∷ ys) ≡ some (xs, ys)
unfolding contains cut
cut-append c [] ys h = ground arith
cut-append c (x ∷ xs) ys h = ground (arith, cut-append c xs ys)

-- A text that can stand as a host or as a port.
pub record IsClean (s : Bytes) : Type 0 where
  pub no_open : contains b'[' s ≡ false
  pub no_close : contains b']' s ≡ false

head-plain :
    (x : ℕ) (host port : Bytes)
    → contains b'[' (x ∷ host) ≡ false
    → split_host_port (x ∷ host ++ b':' ∷ port)
      ≡ elim (cut b':' (x ∷ host ++ b':' ∷ port)) [ none ↦ none | some (a, b) ↦ plain a b ]
unfolding split_host_port contains
head-plain x host port h = ground arith

split-join_plain :
    (host port : Bytes)
    → contains b':' host ≡ false
    → IsClean host
    → IsClean port
    → contains b':' port ≡ false
    → split_host_port (host ++ b':' ∷ port) ≡ some (host, port)
unfolding split_host_port
split-join_plain [] port n h p c =
    ground (arith, cut-append b':' [] port, h.no_open, h.no_close, p.no_open, p.no_close)
split-join_plain (x ∷ host) port n h p c =
    head-plain x host port h.no_open
    ∙ rw (cut-append b':' (x ∷ host) port n)
        (ground (arith, h.no_open, h.no_close, p.no_open, p.no_close))

-- The port has no colon, and neither has a bracket.
pub split-join :
    (host port : Bytes)
    → IsClean host
    → IsClean port
    → contains b':' port ≡ false
    → split_host_port (join_host_port host port) ≡ some (host, port)
unfolding join_host_port
split-join host port h p c = elim (Bool-cases (contains b':' host)) [
  | inr n ↦ rw n (split-join_plain host port n h p c)
  | inl y ↦ rw y (
      unfold split_host_port in
      ground
        (arith, cut-append b']' host (b':' ∷ port), h.no_open, h.no_close, p.no_open, p.no_close))
]
