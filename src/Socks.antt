-- ===== src/Socks.antt =====
-- cmd/avangard-client/main.go, `handleSOCKS`: the local SOCKS5 server, on the bytes that an application
-- sends. Parameters: `ip_string` (net.IP.String), `dial` (whether DialTunnel opens a tunnel), and
-- whether the application still takes the reply to its greeting.
pub mod Connect
use avangard_private.Common.{
  ℕ, ◌+◌, ◌*◌, Bool, not, List, [], ◌∷◌, Bytes, get_or, ◌==◌, if◌then◌else◌, Option, none, some,
  read_full,
}
use avangard_private.Net.{join_host_port, decimal}

-- What is done before the connection is closed. `relays` copies both ways, from these bytes on.
pub data SocksAction : Type 0 where
  writes dials relays : Bytes → SocksAction

-- A reply with the address 0.0.0.0:0.
abbrev pub reply : ℕ → Bytes
reply code = 5 ∷ code ∷ 0 ∷ 1 ∷ 0 ∷ 0 ∷ 0 ∷ 0 ∷ 0 ∷ 0 ∷ []

module _ (ip_string : Bytes → Bytes) (dial : Bytes → Bool) where
  -- The host of the request, and the bytes behind it.
  abbrev read_ip : ℕ → Bytes → Option (Bytes × Bytes)
  read_ip n r = elim (read_full n r) [ none ↦ none | some (b, rest) ↦ some (ip_string b, rest) ]

  abbrev read_name : Bytes → Option (Bytes × Bytes)
  read_name r = elim (read_full 1 r) [
    | none ↦ none
    | some (n, rest) ↦ read_full (get_or n 0 0) rest
  ]

  unfoldable pub read_host : ℕ → Bytes → Option (Bytes × Bytes)
  read_host atyp r =
      if atyp == 1
      then read_ip 4 r
      else if atyp == 3
      then read_name r
      else if atyp == 4
      then read_ip 16 r
      else none

  abbrev open_tunnel : Bytes → Bytes → List SocksAction
  open_tunnel dest rest =
      dials dest
      ∷ (if dial dest then writes (reply 0) ∷ relays rest ∷ [] else writes (reply 5) ∷ [])

  abbrev read_port : Bytes → Bytes → List SocksAction
  read_port host r = elim (read_full 2 r) [
    | none ↦ []
    | some (b, rest) ↦
        open_tunnel (join_host_port host (decimal (get_or b 0 0 * 256 + get_or b 1 0))) rest
  ]

  abbrev read_destination : ℕ → Bytes → List SocksAction
  read_destination atyp r = elim (read_host atyp r) [
    | none ↦ []
    | some (host, rest) ↦ read_port host rest
  ]

  unfoldable pub request : Bytes → List SocksAction
  request r = elim (read_full 4 r) [
    | none ↦ []
    | some (b, rest) ↦
        if not (get_or b 1 0 == 1)
        then writes (reply 7) ∷ []
        else read_destination (get_or b 3 0) rest
  ]

  abbrev methods : Bool → ℕ → Bytes → List SocksAction
  methods greets n r = elim (read_full n r) [
    | none ↦ []
    | some (b, rest) ↦ if greets then writes (5 ∷ 0 ∷ []) ∷ request rest else []
  ]

  unfoldable pub handle_socks : Bool → Bytes → List SocksAction
  handle_socks greets r = elim (read_full 2 r) [
    | none ↦ []
    | some (b, rest) ↦ if not (get_or b 0 0 == 5) then [] else methods greets (get_or b 1 0) rest
  ]
