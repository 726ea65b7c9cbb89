-- ===== src/Auth/Handshake.antt =====
-- pkg/auth/noise.go: `ClientHandshake` and `ServerHandshake` over a duplex stream. The Noise library
-- (github.com/flynn/noise) is a parameter: a handshake state, and the calls that advance it.
pub mod Agreement
use avangard_private.Common.{
  ℕ, zero, suc, ◌+◌, ◌≤◌, ◌<◌, ◌≡◌, refl, [], ◌∷◌, ◌++◌, Bytes, length, ◌==◌, Bool, true, false,
  Option, none, some, Result, ok, err, ◌>>=◌, ◌>>◌, guard, or_fail, arith,
}
use avangard_private.Duplex.{Duplex}
use avangard_private.Auth.Frames.{
  FrameError, write_frame, read_frame, frame, write_frame-frame, read_frame-frame,
}

pub record StaticKey : Type 0 where
  pub public : Bytes
  pub private : Bytes

-- What a call of `WriteMessage` or `ReadMessage` gives: the new state, the message or payload, and
-- the two cipher states, which may be nil.
pub record Turn (S C : Type 0) : Type 0 where
  pub state : S
  pub body : Bytes
  pub cs1 : Option C
  pub cs2 : Option C

-- The library with the cipher suite, the NK pattern and this side's randomness fixed; `none` stands
-- for an error.
pub record Noise : Type 1 where
  pub State : Type 0
  pub Cipher : Type 0
  pub new_initiator : Bytes → Bytes → Option State
  pub new_responder : Bytes → StaticKey → Option State
  pub write_message : State → Bytes → Option (Turn State Cipher)
  pub read_message : State → Bytes → Option (Turn State Cipher)
  pub channel_binding : State → Bytes

pub record HandshakeResult (C : Type 0) : Type 0 where
  pub send : C
  pub recv : C
  pub hash : Bytes
  pub payload : Bytes

pub data HandshakeError : Type 0 where
  bad_pubkey noise_init noise_write noise_read split_missing : HandshakeError
  framing : FrameError → HandshakeError

abbrev framed {ℓ} : {A : Type ℓ} → Result FrameError A → Result HandshakeError A
framed (ok a) = ok a
framed (err e) = err (framing e)

module _ (N : Noise) where
  open N use {
    State, Cipher, new_initiator, new_responder, write_message, read_message, channel_binding,
  }

  -- `if cs1 == nil || cs2 == nil`, and the result with the one that encrypts and the one that decrypts.
  abbrev split {ℓ} :
      {A : Type ℓ} → Option Cipher → Option Cipher → (Cipher → Cipher → A) → Result HandshakeError A
  split none cs2 k = err split_missing
  split (some c) none k = err split_missing
  split (some c) (some d) k = ok (k c d)

  unfoldable pub client_handshake :
      Bytes → Bytes → Bytes → Duplex → Result HandshakeError (HandshakeResult Cipher × Duplex)
  client_handshake server_static_pub prologue initial_payload rw_stream = do
    guard (length server_static_pub == 32) bad_pubkey
    hs ← or_fail (new_initiator prologue server_static_pub) noise_init
    msg1 ← or_fail (write_message hs initial_payload) noise_write
    s1 ← framed (write_frame msg1.body rw_stream)
    (msg2, s2) ← framed (read_frame s1)
    turn ← or_fail (read_message msg1.state msg2) noise_read
    split turn.cs1 turn.cs2 λ c d.
        (record { send = c; recv = d; hash = channel_binding turn.state; payload = turn.body }, s2)

  unfoldable pub server_handshake :
      StaticKey → Bytes → Bytes → Duplex → Result HandshakeError (HandshakeResult Cipher × Duplex)
  server_handshake server_static prologue reply_payload rw_stream = do
    hs ← or_fail (new_responder prologue server_static) noise_init
    (msg1, s1) ← framed (read_frame rw_stream)
    turn ← or_fail (read_message hs msg1) noise_read
    msg2 ← or_fail (write_message turn.state reply_payload) noise_write
    s2 ← framed (write_frame msg2.body s1)
    split msg2.cs1 msg2.cs2 λ c d.
        (record { send = d; recv = c; hash = channel_binding msg2.state; payload = turn.body }, s2)
