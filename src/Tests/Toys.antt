-- ===== src/Tests/Toys.antt =====
-- A stand-in for the Noise library of pkg/auth/noise.go that the tests share.
use avangard_private.Common.{
  ℕ, [], ◌∷◌, Bytes, replicate, drop, ◌==◌, if◌then◌else◌, Option, none, some,
}
use avangard_private.Auth.Handshake.{StaticKey, Turn, Noise}

-- A library that marks a message with its number. Its states are numbers, and its ciphers too.
abbrev pub turn : ℕ → Bytes → Turn ℕ ℕ
turn s b = record { state = s; body = b; cs1 = none; cs2 = none }

abbrev pub last_turn : Bytes → Turn ℕ ℕ
last_turn b = record { state = 9; body = b; cs1 = some 5; cs2 = some 6 }

abbrev toy_write : ℕ → Bytes → Option (Turn ℕ ℕ)
toy_write s b = if s == 0 then some (turn 1 (1 ∷ b)) else some (last_turn (2 ∷ b))

abbrev toy_read : ℕ → Bytes → Option (Turn ℕ ℕ)
toy_read s b = if s == 2 then some (turn 3 (drop 1 b)) else some (last_turn (drop 1 b))

abbrev pub toy_noise : Noise
toy_noise = record {
  State = ℕ;
  Cipher = ℕ;
  new_initiator = λ prologue key. some 0;
  new_responder = λ prologue key. some 2;
  write_message = toy_write;
  read_message = toy_read;
  channel_binding = λ s. s ∷ [];
}

abbrev pub static_key : StaticKey
static_key = record { public = replicate 32 1; private = replicate 32 2 }
