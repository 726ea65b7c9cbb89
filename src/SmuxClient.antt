-- ===== src/SmuxClient.antt =====
-- pkg/transport/smuxtcp/smuxtcp.go, `Client`: many streams over one outer connection, which is dialed on
-- first use and again when it is gone. What the network and the smux library answer in one call of
-- `Dial` is an argument.
pub mod Bound
use avangard_private.Common.{
  ℕ, Bool, true, false, not, ◌||◌, Bytes, length, ◌==◌, if◌then◌else◌, Option, none, some, Result,
  ok, err, List, [], ◌∷◌,
}

-- An outer connection that was established: the smux session, the TCP connection and the transcript
-- hash. Sessions and connections are numbers.
pub record Outer : Type 0 where
  pub session : ℕ
  pub raw : ℕ
  pub hash : Bytes

-- `established` records the outer connections in the order of their handshakes, the last one first.
pub record SmuxClient : Type 0 where
  pub session : Option ℕ
  pub raw : Option ℕ
  pub hash : Bytes
  pub established : List Outer

pub record SmuxStream : Type 0 where
  pub session : ℕ
  pub raw : Option ℕ
  pub hash : Bytes

pub data SmuxError : Type 0 where
  outer_failed reconnect_failed open_failed : SmuxError

-- `c.session.IsClosed()`, what the two attempts of `dialOuter` give, and whether the two attempts of
-- `OpenStream` succeed.
pub record Answers : Type 0 where
  pub is_closed : Bool
  pub outer1 : Option Outer
  pub open1 : Bool
  pub outer2 : Option Outer
  pub open2 : Bool

-- `NewClient`, of a configuration that it accepts.
abbrev pub new_client : SmuxClient
new_client = record { session = none; raw = none; hash = []; established = [] }

-- The assignments at the end of `dialOuter`.
abbrev pub connect : SmuxClient → Outer → SmuxClient
connect c o = record {
  session = some o.session;
  raw = some o.raw;
  hash = o.hash;
  established = o ∷ c.established;
}

abbrev pub stream_on : SmuxClient → ℕ → SmuxStream
stream_on c session = record { session = session; raw = c.raw; hash = c.hash }

-- `OpenStream` failed: the session is dropped, and there is one more try.
abbrev retry : SmuxClient → Answers → Option Outer → SmuxClient × Result SmuxError SmuxStream
retry c a none = (record c { session = none }, err reconnect_failed)
retry c a (some o) =
    let c' = connect (record c { session = none }) o in
    (c', (if a.open2 then ok (stream_on c' o.session) else err open_failed))

abbrev open_on : SmuxClient → Answers → ℕ → SmuxClient × Result SmuxError SmuxStream
open_on c a session = elim a.open1 [
  | true ↦ (c, ok (stream_on c session))
  | false ↦ retry c a a.outer2
]

abbrev first_outer : SmuxClient → Answers → Option Outer → SmuxClient × Result SmuxError SmuxStream
first_outer c a none = (c, err outer_failed)
first_outer c a (some o) = open_on (connect c o) a o.session

abbrev with_session : SmuxClient → Answers → Option ℕ → SmuxClient × Result SmuxError SmuxStream
with_session c a none = first_outer c a a.outer1
with_session c a (some session) = elim a.is_closed [
  | true ↦ first_outer c a a.outer1
  | false ↦ open_on c a session
]

-- `Dial`
unfoldable pub smux_dial : SmuxClient → Answers → SmuxClient × Result SmuxError SmuxStream
smux_dial c a = with_session c a c.session
