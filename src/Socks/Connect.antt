-- ===== src/Socks/Connect.antt =====
-- cmd/avangard-client/main.go, `handleSOCKS`: a CONNECT request to a name.
use avangard_private.Common.{
  ℕ, ◌+◌, ◌*◌, ◌/◌, ◌%◌, ◌^◌, ◌<◌, ◌≡◌, refl, Bool, true, [], ◌∷◌, ◌++◌, Bytes, length,
  if◌then◌else◌, read_full_at, arith,
}
use avangard_private.Net.{join_host_port, decimal}
use avangard_private.Socks.{writes, dials, relays, reply, read_host, request, handle_socks}

-- A greeting with these methods, and a request for this name and port.
abbrev pub greeting : Bytes → Bytes
greeting methods = 5 ∷ length methods ∷ methods

abbrev pub connect_name : Bytes → ℕ → Bytes → Bytes
connect_name name port rest =
    (5 ∷ 1 ∷ 0 ∷ 3 ∷ [])
    ++ ((length name ∷ []) ++ (name ++ ((port / 256 ∷ port % 256 ∷ []) ++ rest)))

module _ (ip_string : Bytes → Bytes) (dial : Bytes → Bool) where
  request_name :
      (name rest : Bytes) (port : ℕ)
      → port < 2 ^ 16
      → request ip_string dial (connect_name name port rest) ≡ (
          let dest = join_host_port name (decimal port) in
          dials dest
          ∷ (if dial dest then writes (reply 0) ∷ relays rest ∷ [] else writes (reply 5) ∷ []))
  unfolding request read_host
  request_name name rest port h =
      let r1 = (length name ∷ []) ++ (name ++ ((port / 256 ∷ port % 256 ∷ []) ++ rest)) in
      let e4 = read_full_at 4 (5 ∷ 1 ∷ 0 ∷ 3 ∷ []) r1 refl in
      let e1 =
        read_full_at 1 (length name ∷ []) (name ++ ((port / 256 ∷ port % 256 ∷ []) ++ rest)) refl in
      let en = read_full_at (length name) name ((port / 256 ∷ port % 256 ∷ []) ++ rest) refl in
      let e2 = read_full_at 2 (port / 256 ∷ port % 256 ∷ []) rest refl in
      let digits : port / 256 * 256 + port % 256 ≡ port = omega arith in
      ground (arith, e4, e1, en, e2, digits)

  -- From an application that takes the reply to its greeting, a greeting and a CONNECT request for a
  -- name and a port below 65536 are answered, in order, by the choice of no
  -- authentication, the tunnel to that name and port, and the reply that says whether it is open;
  -- what follows the request is relayed.
  pub handle_socks_connect :
      (methods name rest : Bytes) (port : ℕ)
      → port < 2 ^ 16
      → handle_socks ip_string dial true (greeting methods ++ connect_name name port rest)
        ≡ writes (5 ∷ 0 ∷ [])
          ∷ (let dest = join_host_port name (decimal port) in
              dials dest
              ∷ (if dial dest then writes (reply 0) ∷ relays rest ∷ [] else writes (reply 5) ∷ []))
  unfolding handle_socks
  handle_socks_connect methods name rest port h =
      let r = connect_name name port rest in
      let e2 = read_full_at 2 (5 ∷ length methods ∷ []) (methods ++ r) refl in
      let em = read_full_at (length methods) methods r refl in
      ground (arith, e2, em, request_name name rest port h)
