-- ===== src/Net.antt =====
-- What the source uses of Go's `net` and `strconv`: addresses of the form host:port, decimal numbers,
-- and the 4-byte form of an IP address. Text is the list of its bytes.
pub mod HostPort
pub mod Decimal
use avangard_private.Common.{
  ℕ, zero, suc, ◌+◌, ◌-◌, ◌*◌, ◌/◌, ◌%◌, ◌<◌, Bool, true, false, not, ◌&&◌, ◌||◌, List, [], ◌∷◌,
  ◌++◌, Bytes, ltb, ◌==◌, if◌then◌else◌, Option, none, some, length, get_or, take, drop, equal,
  replicate,
}

-- `strings.IndexByte(s, c) >= 0`
unfoldable pub contains : ℕ → Bytes → Bool
contains c [] = false
contains c (x ∷ s) = x == c || contains c s

-- `s` cut at the first `c`, which is left out.
unfoldable pub cut : ℕ → Bytes → Option (Bytes × Bytes)
cut c [] = none
cut c (x ∷ s) =
    let rest = cut c s in
    if x == c then some ([], s) else elim rest [ none ↦ none | some (a, b) ↦ some (x ∷ a, b) ]

unfoldable pub join_host_port : Bytes → Bytes → Bytes
unfolding contains
join_host_port host port =
    if contains b':' host then b'[' ∷ (host ++ (b']' ∷ b':' ∷ port)) else host ++ (b':' ∷ port)

-- Behind the bracketed host there has to be a colon, and a port with no colon or bracket.
abbrev bracketed : Bytes → Bytes → Option (Bytes × Bytes)
bracketed host [] = none
bracketed host (c ∷ port) =
    if c == b':'
      && not (contains b':' port || contains b'[' host || contains b'[' port || contains b']' port)
    then some (host, port)
    else none

abbrev plain : Bytes → Bytes → Option (Bytes × Bytes)
plain host port =
    if contains b':' port
      || contains b'[' host
      || contains b'[' port
      || contains b']' host
      || contains b']' port
    then none
    else some (host, port)

-- `net.SplitHostPort`; every error is `none`.
unfoldable pub split_host_port : Bytes → Option (Bytes × Bytes)
unfolding contains cut
split_host_port [] = none
split_host_port (x ∷ s) =
    if x == b'['
    then (elim (cut b']' s) [ none ↦ none | some (host, rest) ↦ bracketed host rest ])
    else elim (cut b':' (x ∷ s)) [ none ↦ none | some (host, port) ↦ plain host port ]

-- The decimal digits of `n` in front of `acc`. A number has fewer digits than its successor has units.
unfoldable pub decimal_onto : ℕ → ℕ → Bytes → Bytes
decimal_onto zero n acc = acc
decimal_onto (suc f) n acc =
    let rest = decimal_onto f (n / 10) ((b'0' + n % 10) ∷ acc) in
    if ltb n 10 then (b'0' + n % 10) ∷ acc else rest

-- `strconv.Itoa` of a number that is not negative, and `%d` of an unsigned one.
unfoldable pub decimal : ℕ → Bytes
unfolding decimal_onto
decimal n = decimal_onto (suc n) n []

-- `ip.To4()`
unfoldable pub to4 : Bytes → Option Bytes
to4 ip =
    if length ip == 4
    then some ip
    else if length ip == 16
        && equal (take 10 ip) (replicate 10 0)
        && get_or ip 10 0 == 255
        && get_or ip 11 0 == 255
    then some (drop 12 ip)
    else none
