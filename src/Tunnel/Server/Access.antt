-- ===== src/Tunnel/Server/Access.antt =====
-- pkg/tunnel/server.go: who is served.
use avangard_private.Common.{
  ◌≡◌, ◌⊎◌, inl, inr, refl, Bool, true, List, [], ◌∷◌, ◌++◌, Bytes, Any, ok, arith, Bool-cases,
  Result-cases,
}
use avangard_private.Protocol.{Header, decode}
use avangard_private.Auth.Token.{derive_token, verify_token, verify_token_iff}
use avangard_private.Tunnel.Server.{
  Arrival, arrives, times_out, closes, token_valid, dispatch, handle,
}

module _ (hmac : Bytes → Bytes → Bytes) where
  -- The token was derived from this channel and one of the accepted identities.
  abbrev pub Accepted : List Bytes → Bytes → Bytes → Type 0
  Accepted accepted got channel = Any (λ u. got ≡ derive_token hmac u channel) accepted

  token_valid-Accepted :
      (us : List Bytes) (got channel : Bytes)
      → token_valid hmac us got channel ≡ true
      → Accepted us got channel
  unfolding token_valid
  token_valid-Accepted [] got channel h = absurd (ground arith)
  token_valid-Accepted (u ∷ us) got channel h =
      elim (Bool-cases (verify_token hmac u channel got)) [
        | inl e ↦ inl ((verify_token_iff hmac u channel got).0 e)
        | inr e ↦ inr (token_valid-Accepted us got channel (ground arith))
      ]

  Accepted-token_valid :
      (us : List Bytes) (got channel : Bytes)
      → Accepted us got channel
      → token_valid hmac us got channel ≡ true
  unfolding token_valid
  Accepted-token_valid [] got channel h = absurd h
  Accepted-token_valid (u ∷ us) got channel (inl e) =
      ground (arith, (verify_token_iff hmac u channel got).1 e)
  Accepted-token_valid (u ∷ us) got channel (inr e) =
      ground (arith, Accepted-token_valid us got channel e)

  module _ (ip_string : Bytes → Bytes) (accepted : List Bytes) (channel : Bytes)
      (dial : Bytes → Bool) where
    -- Whatever arrives, the server only closes the stream, or a whole header came in time whose token
    -- belongs to an accepted identity and this very channel, and the server serves that header.
    pub handle_access :
        (arrival : Arrival)
        → (handle hmac ip_string accepted channel dial arrival ≡ closes ∷ [])
          ⊎ ((bytes : Bytes) × (h : Header) × (rest : Bytes) × (arrival ≡ arrives bytes)
              × (decode bytes ≡ ok (h, rest))
              × Accepted accepted h.token_hmac channel
              × (handle hmac ip_string accepted channel dial arrival
                  ≡ dispatch hmac ip_string dial h rest ++ closes ∷ []))
    unfolding handle
    handle_access times_out = inl refl
    handle_access (arrives bytes) = elim (Result-cases (decode bytes)) [
      | inr (e, q) ↦ inl (rw q)
      | inl (p, q) ↦ elim (Bool-cases (token_valid hmac accepted p.0.token_hmac channel)) [
        | inr n ↦ inl (rw q (rw n))
        | inl y ↦ inr (
          bytes,
          p.0,
          p.1,
          refl,
          q,
          token_valid-Accepted accepted p.0.token_hmac channel y,
          rw q (rw y),
        )
      ]
    ]

    -- A header with the token of an accepted identity is served.
    pub handle_served :
        (bytes rest : Bytes) (h : Header)
        → decode bytes ≡ ok (h, rest)
        → Accepted accepted h.token_hmac channel
        → handle hmac ip_string accepted channel dial (arrives bytes)
          ≡ dispatch hmac ip_string dial h rest ++ closes ∷ []
    unfolding handle
    handle_served bytes rest h q a =
        rw q (rw (Accepted-token_valid accepted h.token_hmac channel a))
