-- ===== src/TcpServer/Routes.antt =====
-- pkg/transport/tcp/server.go: who is served, and what the decoy gets to see.
use mathlib.Core.List.{append-nil}
use avangard_private.Common.{
  ℕ, ◌<◌, ◌≡◌, ◌≢◌, ◌↔◌, sym, ◌⊎◌, inl, inr, ap, ◌∙◌, length-ne-zero, length-append,
  length-replicate, some, ok, Option-cases, Result-cases, true, false, List, [], ◌∷◌, ◌++◌, Bytes,
  Any, length, replicate, equal, equal_iff, Bool-cases, arith,
}
use avangard_private.Duplex.{Duplex}
use avangard_private.Auth.Handshake.{Noise, HandshakeResult, server_handshake}
use avangard_private.Transport.{TunnelStream, server_hello_payload}
use avangard_private.Sni.{peek_client_hello_sni, read_header, read_body}
use avangard_private.Sni.Raw.{whole, nothing, padded, peek_client_hello_sni-HandsOn}
use avangard_private.TcpServer.{
  Server, dropped, decoy, offered, member, is_magic_sni, forward_decoy, terminate, handle_conn,
}

pub member_iff : (xs : List Bytes) (s : Bytes) → (member xs s ≡ true) ↔ Any (λ x. x ≡ s) xs
unfolding member
member_iff [] s = (λ h. absurd (ground arith), λ h. absurd h)
member_iff (x ∷ xs) s = (
  λ h. elim (Bool-cases (equal x s)) [
    | inl e ↦ inl ((equal_iff x s).0 e)
    | inr e ↦ inr ((member_iff xs s).0 (ground arith))
  ],
  λ a. elim a [
    | inl e ↦ ground (arith, (equal_iff x s).1 e)
    | inr m ↦ ground (arith, (member_iff xs s).1 m)
  ],
)

is_magic_sni-Any :
    (s : Server) (sni : Bytes)
    → is_magic_sni s sni ≡ true
    → (s.magic_snis ≡ []) ⊎ Any (λ x. x ≡ sni) s.magic_snis
unfolding is_magic_sni
is_magic_sni-Any s sni h = elim (Bool-cases (member s.magic_snis sni)) [
  | inl e ↦ inr ((member_iff s.magic_snis sni).0 e)
  | inr e ↦ inl (ground arith)
]

not_member :
    (s : Server) (sni : Bytes) → ¬ Any (λ x. x ≡ sni) s.magic_snis → member s.magic_snis sni ≡ false
not_member s sni n = elim (Bool-cases (member s.magic_snis sni)) [
  | inl e ↦ absurd (n ((member_iff s.magic_snis sni).0 e))
  | inr e ↦ e
]

module _ (N : Noise) where
  -- The bytes begin a TLS connection, and inside it the Noise handshake of the server succeeds and gives
  -- this stream.
  pub record Handshaken (s : Server) (bytes : Bytes) (ts : TunnelStream) : Type 0 where
    pub inner : Duplex
    pub result : HandshakeResult N.Cipher
    pub tls : s.tls_handshake bytes ≡ some inner
    pub noise :
        server_handshake N s.noise_static s.prologue server_hello_payload inner
        ≡ ok (result, ts.conn)
    pub binding : ts.channel ≡ result.hash

  terminate-offered :
      (s : Server) (b : Bytes) (ts : TunnelStream)
      → terminate N s b ≡ offered ts
      → Handshaken s b ts
  unfolding terminate
  terminate-offered s b ts h = elim (Option-cases (s.tls_handshake b)) [
    | inl n ↦ absurd (ground arith)
    | inr (inner, t) ↦
        elim (Result-cases
          (server_handshake N s.noise_static s.prologue server_hello_payload inner)) [
            | inr (x, n) ↦ absurd (ground arith)
            | inl ((r, c), e) ↦
                let same : ts ≡ record { channel = r.hash; conn = c } = ground arith in
                record {
                  inner = inner;
                  result = r;
                  tls = t;
                  noise = e ∙ ap (λ x. ok (r, x.conn)) (sym same);
                  binding = ap (λ x. x.channel) same;
                }
          ]
  ]

  forward_decoy-ne-offered :
      (s : Server) (b : Bytes) (ts : TunnelStream) → forward_decoy s b ≢ offered ts
  unfolding forward_decoy
  forward_decoy-ne-offered s b ts h = ground arith

  handle_conn-offered :
      (s : Server) (stream : Bytes) (ts : TunnelStream)
      → handle_conn N s stream ≡ offered ts
      → let p = peek_client_hello_sni stream in
        (is_magic_sni s p.sni ≡ true) × (terminate N s (p.raw ++ p.unread) ≡ offered ts)
  unfolding handle_conn
  handle_conn-offered s stream ts h =
      let p = peek_client_hello_sni stream in
      ground (arith, forward_decoy-ne-offered s (p.raw ++ p.unread) ts)

  -- A connection is offered to `Accept` only if its server name is one of the magic names, or there are
  -- none, and both handshakes succeeded on the bytes handed on: the TLS handshake gave a stream, and the
  -- Noise handshake over it gave the channel binding and the stream that are offered.
  pub offered_sound :
      (s : Server) (stream : Bytes) (ts : TunnelStream)
      → handle_conn N s stream ≡ offered ts
      → let p = peek_client_hello_sni stream in
        ((s.magic_snis ≡ []) ⊎ Any (λ x. x ≡ p.sni) s.magic_snis)
        × Handshaken s (p.raw ++ p.unread) ts
  offered_sound s stream ts h =
      let p = peek_client_hello_sni stream in
      let (magic, done) = handle_conn-offered s stream ts h in
      (is_magic_sni-Any s p.sni magic, terminate-offered s (p.raw ++ p.unread) ts done)

  -- Whoever hands something on and knows no magic name is proxied.
  handle_conn-decoy :
      (s : Server) (stream : Bytes)
      → s.magic_snis ≢ []
      → ¬ Any (λ x. x ≡ (peek_client_hello_sni stream).sni) s.magic_snis
      → s.decoy_addr ≢ []
      → s.decoy_reachable ≡ true
      → 0 < length (peek_client_hello_sni stream).raw
      → handle_conn N s stream
        ≡ decoy ((peek_client_hello_sni stream).raw ++ (peek_client_hello_sni stream).unread)
  unfolding handle_conn forward_decoy is_magic_sni
  handle_conn-decoy s stream m n d r l =
      let p = peek_client_hello_sni stream in
      ground
        (arith, not_member s p.sni n, length-ne-zero s.magic_snis m, length-ne-zero s.decoy_addr d)

  handle_conn-dropped :
      (s : Server) (stream : Bytes)
      → (peek_client_hello_sni stream).raw ≡ []
      → (peek_client_hello_sni stream).error ≡ some read_header
      → handle_conn N s stream ≡ dropped
  unfolding handle_conn
  handle_conn-dropped s stream e f = ground arith

  -- With a decoy that can be reached, a peer that does not know a magic name is proxied to it with the
  -- very bytes that it sent. There are two exceptions: it is dropped if it sends less than a record's
  -- header, and if it stops inside the record, the decoy gets zeros for the bytes that are missing.
  pub prober_sees_decoy :
      (s : Server) (stream : Bytes)
      → s.magic_snis ≢ []
      → ¬ Any (λ x. x ≡ (peek_client_hello_sni stream).sni) s.magic_snis
      → s.decoy_addr ≢ []
      → s.decoy_reachable ≡ true
      → ((handle_conn N s stream ≡ dropped)
          × ((peek_client_hello_sni stream).error ≡ some read_header))
        ⊎ (handle_conn N s stream ≡ decoy stream)
        ⊎ ((k : ℕ) × (0 < k)
            × (handle_conn N s stream ≡ decoy (stream ++ replicate k 0))
            × ((peek_client_hello_sni stream).error ≡ some read_body))
  prober_sees_decoy s stream m n d r =
      let p = peek_client_hello_sni stream in
      elim (peek_client_hello_sni-HandsOn stream) [
        | nothing a e ↦ inl (handle_conn-dropped s stream a e, e)
        | whole e l ↦ inr (inl (handle_conn-decoy s stream m n d r l ∙ ap decoy e))
        | padded k pos e u f ↦
            let long : 0 < length p.raw = omega (
              arith,
              ap length e,
              length-append stream (replicate k 0),
              length-replicate {A = ℕ} k 0,
            ) in
            inr (
              inr (
                k,
                pos,
                handle_conn-decoy s stream m n d r long
                    ∙ ap decoy (ap (λ x. p.raw ++ x) u ∙ append-nil p.raw ∙ e),
                f,
              ))
      ]
