-- ===== src/SmuxClient/Bound.antt =====
-- pkg/transport/smuxtcp/smuxtcp.go, `Client.Dial`: the channel binding of a stream.
use avangard_private.Common.{
  ℕ, ◌≡◌, inl, inr, refl, List, [], ◌∷◌, Bytes, Any, Option, none, some, Result, ok, err,
  Bool-cases, subst,
}
use avangard_private.SmuxClient.{
  Outer, SmuxClient, SmuxStream, SmuxError, reconnect_failed, open_failed, outer_failed, Answers,
  new_client, connect, stream_on, retry, open_on, first_outer, with_session, smux_dial,
}

-- The session, the connection and the hash are those of one outer connection.
abbrev pub SameOuter : ℕ → Option ℕ → Bytes → Outer → Type 0
SameOuter session raw hash o = (o.session ≡ session) × (some o.raw ≡ raw) × (o.hash ≡ hash)

abbrev Bound : SmuxClient → Type 0
Bound c =
    (session : ℕ) → c.session ≡ some session → Any (SameOuter session c.raw c.hash) c.established

abbrev StreamBound : SmuxClient → SmuxStream → Type 0
StreamBound c s = Any (SameOuter s.session s.raw s.hash) c.established

-- After a call: the client is in shape, and so is the stream that it gave.
record Good (r : SmuxClient × Result SmuxError SmuxStream) : Type 0 where
  client : Bound r.0
  stream : (s : SmuxStream) → r.1 ≡ ok s → StreamBound r.0 s

connect-Bound : (c : SmuxClient) (o : Outer) → Bound (connect c o)
connect-Bound c o session e = inl (cc, refl, refl)

stream_on-Good :
    (c : SmuxClient) (session : ℕ)
    → c.session ≡ some session
    → Bound c
    → Good (c, ok (stream_on c session))
stream_on-Good c session e b = record {
  client = b;
  stream =
      λ s h. let same : stream_on c session ≡ s = cc in subst (StreamBound c) same (b session e);
}

failed-Good : (c : SmuxClient) (e : SmuxError) → Bound c → Good (c, err e)
failed-Good c e b = record { client = b; stream = λ s h. absurd (cc) }

retry-Good : (c : SmuxClient) (a : Answers) (o : Option Outer) → Good (retry c a o)
retry-Good c a none =
    failed-Good (record c { session = none }) reconnect_failed (λ session e. absurd (cc))
retry-Good c a (some o) =
    let c' = connect (record c { session = none }) o in
    elim (Bool-cases a.open2) [
      | inl e ↦
          rw e (stream_on-Good c' o.session refl (connect-Bound (record c { session = none }) o))
      | inr e ↦ rw e (failed-Good c' open_failed (connect-Bound (record c { session = none }) o))
    ]

open_on-Good :
    (c : SmuxClient) (a : Answers) (session : ℕ)
    → c.session ≡ some session
    → Bound c
    → Good (open_on c a session)
open_on-Good c a session e b = elim (Bool-cases a.open1) [
  | inl o ↦ rw (o, open_on) (stream_on-Good c session e b)
  | inr o ↦ rw (o, open_on) (retry-Good c a a.outer2)
]

first_outer-Good :
    (c : SmuxClient) (a : Answers) (o : Option Outer) → Bound c → Good (first_outer c a o)
first_outer-Good c a none b = failed-Good c outer_failed b
first_outer-Good c a (some o) b = open_on-Good (connect c o) a o.session refl (connect-Bound c o)

with_session-Good :
    (c : SmuxClient) (a : Answers) (session : Option ℕ)
    → c.session ≡ session
    → Bound c
    → Good (with_session c a session)
with_session-Good c a none e b = first_outer-Good c a a.outer1 b
with_session-Good c a (some session) e b = elim (Bool-cases a.is_closed) [
  | inl o ↦ rw (o, with_session) (first_outer-Good c a a.outer1 b)
  | inr o ↦ rw (o, with_session) (open_on-Good c a session e b)
]

smux_dial-Good : (c : SmuxClient) (a : Answers) → Bound c → Good (smux_dial c a)
unfolding smux_dial
smux_dial-Good c a b = with_session-Good c a c.session refl b

unfoldable pub smux_dial_all : List Answers → SmuxClient → SmuxClient
smux_dial_all [] c = c
smux_dial_all (a ∷ answers) c = smux_dial_all answers (smux_dial c a).0

smux_dial_all-Bound :
    (answers : List Answers) (c : SmuxClient) → Bound c → Bound (smux_dial_all answers c)
unfolding smux_dial_all
smux_dial_all-Bound [] c b = b
smux_dial_all-Bound (a ∷ answers) c b =
    smux_dial_all-Bound answers (smux_dial c a).0 (smux_dial-Good c a b).client

-- After any calls of `Dial`, however each of them went, a stream that the next call opens has the
-- session, the connection and the hash of one and the same outer connection: its channel binding is
-- never that of another handshake.
pub smux_dial_bound :
    (answers : List Answers) (a : Answers) (s : SmuxStream)
    → (smux_dial (smux_dial_all answers new_client) a).1 ≡ ok s
    → Any
        (SameOuter s.session s.raw s.hash)
        (smux_dial (smux_dial_all answers new_client) a).0.established
smux_dial_bound answers a s h =
    (smux_dial-Good (smux_dial_all answers new_client) a
        (smux_dial_all-Bound answers new_client (λ session e. absurd (cc)))).stream
      s h
