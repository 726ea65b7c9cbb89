-- ===== src/Autoprobe.antt =====
-- pkg/autoprobe/probe.go: the outcome of the probes, and the decimal digits of a port. `itoa` fills a
-- buffer of ten bytes from its end; one digit more is an index out of range.
pub mod Digits
pub mod Probes
pub mod Store
pub mod Distinct
pub mod AnyOrder
use avangard_private.Common.{
  ℕ, zero, suc, ◌+◌, ◌-◌, ◌/◌, ◌%◌, Bool, true, false, List, [], ◌∷◌, Bytes, ltb, ◌==◌,
  if◌then◌else◌, Option, none, some,
}

pub record ProbeStatus : Type 0 where
  pub is_ok : Bool
  pub rtt : ℕ
  pub err_msg : Bytes

pub record ProbeResult : Type 0 where
  pub udp443 : ProbeStatus
  pub tcp443 : ProbeStatus
  pub tcp_alt : List (ℕ × ProbeStatus)
  pub rtts : List (Bytes × ℕ)

-- The loop `for i > 0`, with `room` bytes of the buffer free in front of `written`. A panic is `none`;
-- a number is out of digits before it is out of fuel.
unfoldable pub itoa_loop : ℕ → ℕ → ℕ → Bytes → Option Bytes
itoa_loop zero room i written = none
itoa_loop (suc fuel) room i written = elim (i == 0) [
  | true ↦ some written
  | false ↦ elim (room == 0) [
    | true ↦ none
    | false ↦ itoa_loop fuel (room - 1) (i / 10) ((b'0' + i % 10) ∷ written)
  ]
]

unfoldable pub itoa : ℕ → Option Bytes
unfolding itoa_loop
itoa i = if i == 0 then some (b'0' ∷ []) else itoa_loop (suc i) 10 i []
