-- ===== src/Tests/Handshakes.antt =====
-- pkg/auth on small messages, with stand-ins for the Noise library and HMAC-SHA256.
use avangard_private.Common.{arith, ℕ, ◌≡◌, refl, [], ◌∷◌, ◌++◌, Bytes, replicate, take, ok, codes}
use avangard_private.Duplex.{Duplex}
use avangard_private.Auth.Handshake.{HandshakeResult, client_handshake, server_handshake}
use avangard_private.Tests.Toys.{turn, last_turn, static_key, toy_noise}
use avangard_private.Auth.Handshake.Agreement.{Completes, opened, shaken, handshake_agreement}

abbrev toy_mac : Bytes → Bytes → Bytes
toy_mac k m = take 32 (k ++ (m ++ replicate 32 0))

abbrev line : Bytes → Duplex
line s = record { incoming = s; sent = []; writes_left = 2 }

abbrev toy_completes : Completes toy_noise static_key (codes "p") (codes "hello") (codes "reply")
toy_completes = record {
  client = 0;
  server = 2;
  msg1 = turn 1 (1 ∷ codes "hello");
  got1 = turn 3 (codes "hello");
  msg2 = last_turn (2 ∷ codes "reply");
  got2 = last_turn (codes "reply");
  c = 5;
  d = 6;
  pub_length = refl;
  client_init = refl;
  server_init = refl;
  write1 = refl;
  read1 = refl;
  hello_read = refl;
  write2 = refl;
  read2 = refl;
  reply_read = refl;
  size1 = (omega arith, omega arith);
  size2 = (omega arith, omega arith);
  server_split = (refl, refl);
  client_split = (refl, refl);
  same_binding = refl;
}

handshake_agreement_example :
    (rc rs : HandshakeResult ℕ) × (from_c from_s : Bytes) × (client_handshake toy_noise
        static_key.public
        (codes "p")
        (codes "hello")
        (opened toy_noise 0 (from_s ++ []))
      ≡ ok (rc, shaken toy_noise 0 [] from_c))
    × (server_handshake toy_noise static_key
          (codes "p")
          (codes "reply")
          (opened toy_noise 0 (from_c ++ codes "x"))
        ≡ ok (rs, shaken toy_noise 0 (codes "x") from_s))
    × (rc.send ≡ rs.recv)
    × (rc.recv ≡ rs.send)
    × (rc.hash ≡ rs.hash)
    × (rc.payload ≡ codes "reply")
    × (rs.payload ≡ codes "hello")
handshake_agreement_example = handshake_agreement toy_noise toy_completes 0 0 [] (codes "x")
