-- ===== src/Tunnel/Client/Ports.antt =====
-- pkg/tunnel/client.go, `parsePort`: a port is taken modulo 2^16.
use avangard_private.Url.{all}
use avangard_private.Url.Parse.{digit}
use avangard_private.Uri.{value_from}
use avangard_private.Common.{
  ℕ, zero, suc, ◌+◌, ◌-◌, ◌*◌, ◌/◌, ◌%◌, ◌^◌, ◌<◌, ◌≡◌, ◌∙◌, refl, sym, ap, true, [], ◌∷◌, Bytes,
  ltb, ok, arith, Bool-cases, inl, inr,
}
use avangard_private.Net.{decimal_onto, decimal}
use avangard_private.Tunnel.Client.{parse_port_from, parse_port}

parse_port_from-digit :
    (p d : ℕ) (s : Bytes)
    → d < 10
    → parse_port_from p ((b'0' + d) ∷ s) ≡ parse_port_from ((p * 10 % 2 ^ 16 + d) % 2 ^ 16) s
unfolding parse_port_from
parse_port_from-digit p d s h = ground arith

parse_port_from-decimal_onto :
    (f n : ℕ) (acc : Bytes)
    → n < f
    → parse_port_from 0 (decimal_onto f n acc) ≡ parse_port_from (n % 2 ^ 16) acc
unfolding decimal_onto
parse_port_from-decimal_onto zero n acc h = absurd (omega arith)
parse_port_from-decimal_onto (suc f) n acc h = elim (Bool-cases (ltb n 10)) [
  | inl e ↦ rw e (
      parse_port_from-digit 0 (n % 10) acc (omega arith)
      ∙ ap (λ p. parse_port_from p acc) (ground arith))
  | inr e ↦ rw e (
      parse_port_from-decimal_onto f (n / 10) _ (ground arith)
      ∙ parse_port_from-digit (n / 10 % 2 ^ 16) (n % 10) acc (omega arith)
      ∙ ap (λ p. parse_port_from p acc) (omega arith))
]

-- Of a decimal number `parsePort` makes the number modulo 2^16: a port of 65536 or more is accepted,
-- as another one.
pub parse_port-decimal : (n : ℕ) → parse_port (decimal n) ≡ ok (n % 2 ^ 16)
unfolding parse_port decimal parse_port_from
parse_port-decimal n = parse_port_from-decimal_onto (suc n) n [] (omega arith)

parse_port_from-value :
    (s : Bytes) (v q : ℕ)
    → parse_port_from (v % 2 ^ 16) s ≡ ok q
    → (all digit s ≡ true) × (q ≡ value_from v s % 2 ^ 16)
unfolding parse_port_from all value_from
parse_port_from-value [] v q e = (refl, ground (arith, e))
parse_port_from-value (c ∷ s) v q e = elim (Bool-cases (digit c)) [
  | inr n ↦ absurd (ground (arith, e, n))
  | inl y ↦
      let next : (v % 2 ^ 16 * 10 % 2 ^ 16 + (c - 48)) % 2 ^ 16 ≡ (v * 10 + (c - 48)) % 2 ^ 16 =
        omega arith in
      let rest : parse_port_from ((v % 2 ^ 16 * 10 % 2 ^ 16 + (c - 48)) % 2 ^ 16) s ≡ ok q =
        ground (arith, e, y) in
      let (d, f) =
        parse_port_from-value s (v * 10 + (c - 48)) q
          (ap (λ p. parse_port_from p s) (sym next) ∙ rest) in
      (rw y d, f)
]

-- What `parsePort` accepts are digits, and it gives the number that they stand for modulo 2^16.
pub parse_port-value :
    (s : Bytes) (port : ℕ)
    → parse_port s ≡ ok port
    → (all digit s ≡ true) × (port ≡ value_from 0 s % 2 ^ 16)
unfolding parse_port
parse_port-value s port e = parse_port_from-value s 0 port e
