-- ===== src/Tunnel/Server.antt =====
-- pkg/tunnel/server.go: what the server does with one accepted stream. Parameters: `hmac`, `ip_string`
-- (net.IP.String) and `dial` (whether net.DialTimeout reaches a destination).
pub mod Access
use avangard_private.Common.{
  ℕ, Bool, true, false, List, [], ◌∷◌, ◌++◌, Bytes, ◌==◌, ◌||◌, if◌then◌else◌, Result, ok, err,
}
use avangard_private.Protocol.{
  Header, HeaderError, decode, cmd_connect, cmd_ping, atyp_ipv4, atyp_ipv6, atyp_domain,
}
use avangard_private.Auth.Token.{verify_token}
use avangard_private.Net.{join_host_port, decimal}

-- What comes in on the stream before the ten seconds are over.
pub data Arrival : Type 0 where
  arrives : Bytes → Arrival
  times_out : Arrival

-- What the server does, in order. `relays` copies in both directions, and the bytes are those that
-- follow the header on the tunnel's side.
pub data Action : Type 0 where
  replies dials relays : Bytes → Action
  closes_upstream closes : Action

abbrev pub pong : Bytes
pong = b'P' ∷ b'O' ∷ b'N' ∷ b'G' ∷ []

module _ (ip_string : Bytes → Bytes) where
  unfoldable pub host_string : Header → Bytes
  host_string h =
      if h.atyp == atyp_ipv4 || h.atyp == atyp_ipv6
      then ip_string h.addr
      else if h.atyp == atyp_domain
      then h.addr
      else []

  unfoldable pub destination : Header → Bytes
  unfolding host_string
  destination h = join_host_port (host_string h) (decimal h.port)

  unfoldable pub handle_connect : (Bytes → Bool) → Header → Bytes → List Action
  handle_connect dial h rest =
      let dest = destination h in
      dials dest ∷ (if dial dest then relays rest ∷ closes_upstream ∷ [] else [])

module _ (hmac : Bytes → Bytes → Bytes) where
  unfoldable pub token_valid : List Bytes → Bytes → Bytes → Bool
  token_valid [] got channel = false
  token_valid (u ∷ us) got channel =
      if verify_token hmac u channel got then true else token_valid us got channel

  module _ (ip_string : Bytes → Bytes) where
    -- The `switch` at the end of `handle`.
    unfoldable pub dispatch : (Bytes → Bool) → Header → Bytes → List Action
    dispatch dial header rest =
        if header.cmd == cmd_connect
        then handle_connect ip_string dial header rest
        else if header.cmd == cmd_ping
        then replies pong ∷ []
        else []

    abbrev serve :
        List Bytes → Bytes → (Bytes → Bool) → Result HeaderError (Header × Bytes) → List Action
    serve accepted channel dial (err e) = []
    serve accepted channel dial (ok (header, rest)) =
        if token_valid accepted header.token_hmac channel then dispatch dial header rest else []

    abbrev arrived : List Bytes → Bytes → (Bytes → Bool) → Arrival → List Action
    arrived accepted channel dial times_out = []
    arrived accepted channel dial (arrives bytes) = serve accepted channel dial (decode bytes)

    -- `defer ts.Close()` stands at the end of every path.
    unfoldable pub handle : List Bytes → Bytes → (Bytes → Bool) → Arrival → List Action
    handle accepted channel dial arrival = arrived accepted channel dial arrival ++ closes ∷ []
