-- ===== src/Auth/Handshake/Agreement.antt =====
-- pkg/auth/noise.go: the two sides of the handshake against each other.
use avangard_private.Common.{ℕ, suc, ◌≤◌, ◌<◌, ◌≡◌, refl, [], ◌++◌, Bytes, length, some, ok, arith}
use avangard_private.Duplex.{Duplex}
use avangard_private.Auth.Frames.{frame, write_frame-frame, read_frame-frame}
use avangard_private.Auth.Handshake.{
  StaticKey, Turn, Noise, HandshakeResult, client_handshake, server_handshake,
}

module _ (N : Noise) where
  open N use {
    State, Cipher, new_initiator, new_responder, write_message, read_message, channel_binding,
  }

  -- What the Noise library documents of the NK pattern: an initiator that knows the responder's
  -- public key and a responder with the same prologue read each other's messages, each message fits
  -- a frame, and both end with the same pair of cipher states and the same channel binding.
  pub record Completes (static : StaticKey) (prologue hello reply : Bytes) : Type 0 where
    pub client : State
    pub server : State
    pub msg1 : Turn State Cipher
    pub got1 : Turn State Cipher
    pub msg2 : Turn State Cipher
    pub got2 : Turn State Cipher
    pub c : Cipher
    pub d : Cipher
    pub pub_length : length static.public ≡ 32
    pub client_init : new_initiator prologue static.public ≡ some client
    pub server_init : new_responder prologue static ≡ some server
    pub write1 : write_message client hello ≡ some msg1
    pub read1 : read_message server msg1.body ≡ some got1
    pub hello_read : got1.body ≡ hello
    pub write2 : write_message got1.state reply ≡ some msg2
    pub read2 : read_message msg1.state msg2.body ≡ some got2
    pub reply_read : got2.body ≡ reply
    pub size1 : (0 < length msg1.body) × (length msg1.body ≤ 65535)
    pub size2 : (0 < length msg2.body) × (length msg2.body ≤ 65535)
    pub server_split : (msg2.cs1 ≡ some c) × (msg2.cs2 ≡ some d)
    pub client_split : (got2.cs1 ≡ some c) × (got2.cs2 ≡ some d)
    pub same_binding : channel_binding got2.state ≡ channel_binding msg2.state

  -- A stream before the handshake, and after it, with `n` writes to come.
  abbrev pub opened : ℕ → Bytes → Duplex
  opened n s = record { incoming = s; sent = []; writes_left = suc (suc n) }

  abbrev pub shaken : ℕ → Bytes → Bytes → Duplex
  shaken n rest sent = record { incoming = rest; sent = sent; writes_left = n }

  module _ {static : StaticKey} {prologue hello reply : Bytes}
      (k : Completes static prologue hello reply) where
    pub client_result : HandshakeResult Cipher
    client_result = record {
      send = k.c;
      recv = k.d;
      hash = channel_binding k.got2.state;
      payload = reply;
    }

    pub server_result : HandshakeResult Cipher
    server_result = record {
      send = k.d;
      recv = k.c;
      hash = channel_binding k.msg2.state;
      payload = hello;
    }

    pub same_channel : client_result.hash ≡ server_result.hash
    unfolding client_result server_result
    same_channel = k.same_binding

    pub client_handshake_lem :
        (n : ℕ) (rest : Bytes)
        → client_handshake N static.public prologue hello (opened n (frame k.msg2.body ++ rest))
          ≡ ok (client_result, shaken n rest (frame k.msg1.body))
    unfolding client_handshake client_result
    client_handshake_lem n rest = ground (
      arith,
      k.client_init,
      k.write1,
      k.read2,
      k.client_split,
      k.reply_read,
      k.pub_length,
      write_frame-frame k.msg1.body (opened n (frame k.msg2.body ++ rest)) n k.size1.1 refl,
      read_frame-frame k.msg2.body rest (shaken n (frame k.msg2.body ++ rest) (frame k.msg1.body))
          k.size2.0 k.size2.1 refl,
    )

    pub server_handshake_lem :
        (n : ℕ) (rest : Bytes)
        → server_handshake N static prologue reply (opened n (frame k.msg1.body ++ rest))
          ≡ ok (server_result, shaken n rest (frame k.msg2.body))
    unfolding server_handshake server_result
    server_handshake_lem n rest = ground (
      arith,
      k.server_init,
      k.read1,
      k.write2,
      k.server_split,
      k.hello_read,
      read_frame-frame k.msg1.body rest (opened n (frame k.msg1.body ++ rest)) k.size1.0 k.size1.1
          refl,
      write_frame-frame k.msg2.body (opened n rest) n k.size2.1 refl,
    )

    -- If the Noise library does what it documents (`Completes`), with keys and messages of the right
    -- sizes, each side, fed what the other one sends, sends what the other one is fed, and both end with the
    -- same transcript hash, with one cipher for each direction, and with the other side's payload.
    pub handshake_agreement :
        (m n : ℕ) (rest_c rest_s : Bytes)
        → (rc rs : HandshakeResult Cipher) × (from_c from_s : Bytes) × (client_handshake N
              static.public prologue hello
              (opened m (from_s ++ rest_c))
            ≡ ok (rc, shaken m rest_c from_c))
          × (server_handshake N static prologue reply (opened n (from_c ++ rest_s))
              ≡ ok (rs, shaken n rest_s from_s))
          × (rc.send ≡ rs.recv)
          × (rc.recv ≡ rs.send)
          × (rc.hash ≡ rs.hash)
          × (rc.payload ≡ reply)
          × (rs.payload ≡ hello)
    unfolding client_result server_result
    handshake_agreement m n rest_c rest_s = (
      client_result,
      server_result,
      frame k.msg1.body,
      frame k.msg2.body,
      client_handshake_lem m rest_c,
      server_handshake_lem n rest_s,
      refl,
      refl,
      k.same_binding,
      refl,
      refl,
    )
