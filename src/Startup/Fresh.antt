-- ===== src/Startup/Fresh.antt =====
-- A fresh deployment: the server started with what `keygen` wrote, and a client with the link that it printed.
use avangard_private.Common.{
  ℕ, ◌≡◌, refl, Bool, true, false, [], ◌∷◌, ◌++◌, Bytes, length, ◌==◌, Option, some, ok, codes,
  arith,
}
use avangard_private.Net.{decimal}
use avangard_private.Base64.{std_alphabet}
use avangard_private.Base64.RoundTrip.{encode_raw-nonempty}
use avangard_private.Auth.Handshake.{StaticKey}
use avangard_private.Config
use avangard_private.Config.{validate_server, load_yaml, load_server}
use avangard_private.Transport.{default_prologue, with_default}
use avangard_private.Dialer.{Network}
use avangard_private.Servers.{quic_listen}
use avangard_private.TcpServer.{listen}
use avangard_private.Client.{open_link}
use avangard_private.Keygen.{keygen_server, keygen, gen_uuid}
use avangard_private.Keygen.Identity.{append-nonempty}
use avangard_private.Keygen.Agrees.{IsInput, dialer, key_read, link_opens}
use avangard_private.Startup.{Host, magic_of, start}

magic_of_some : (decoy : Bytes) → (length decoy == 0) ≡ false → magic_of decoy ≡ decoy ∷ []
magic_of_some [] h = absurd (ground (arith, h))
magic_of_some (x ∷ s) h = refl

-- Where the run command finds the configuration that keygen wrote, with its certificate, and can listen.
pub record Finds (w : Host) (path body : Bytes) (cfg : Option Config.ServerConfig) : Type 0 where
  pub file : w.read_file path ≡ some body
  pub decoded : w.decode_yaml body ≡ cfg
  pub certificate : (cert key : Bytes) → w.certificate cert key ≡ true
  pub quic : (addr : Bytes) → w.listens_quic addr ≡ true
  pub tcp : (addr : Bytes) → w.listens_tcp addr ≡ true

module _ (w : Host) (static : StaticKey) (rand : Option Bytes) (now : ℕ) (host : Bytes) (port : ℕ)
    (decoy out_dir : Bytes) (i : IsInput w.x25519 static rand host port decoy)
    (has_decoy : (length decoy == 0) ≡ false) (has_dir : (length out_dir == 0) ≡ false) where
  valid : validate_server (keygen_server static (gen_uuid rand now) port decoy out_dir) ≡ ok tt
  unfolding validate_server keygen_server
  valid =
      let listens : (length (b':' ∷ decimal port) == 0) ≡ false = ground arith in
      let full : (length static.private == 32) ≡ true = ground (arith, i.private_length) in
      rw
        (
          listens,
          append-nonempty out_dir (codes "cert.pem") b'/',
          append-nonempty out_dir (codes "key.pem") b'/',
          encode_raw-nonempty std_alphabet static.private full,
        )
        refl

  loaded :
      (path body : Bytes)
      → Finds w path body (keygen static rand now host port decoy out_dir).server
      → load_server w.read_file w.decode_yaml path
        ≡ ok (keygen_server static (gen_uuid rand now) port decoy out_dir)
  unfolding load_server load_yaml keygen
  loaded path body f = rw (f.file, f.decoded, has_dir) (rw valid refl)

  -- keygen is run with a key pair of X25519, random bytes, a public host that is a name of letters, digits, dots and
  -- dashes, a port of a signed word, a decoy and a directory; and run finds the configuration
  -- that keygen wrote, a certificate that loads, and addresses that it can listen on. Then it starts
  -- both listeners, and the client makes a tcp dialer of the link that keygen printed. They agree on
  -- what the handshakes need: the dialer has the public key of the listeners' key pair, the same
  -- prologue, as the server name the one that the TCP listener does not send to the decoy, and the one
  -- identity that the server accepts.
  pub fresh_deployment :
      (path body : Bytes) (net : Network) (insecure : Bool)
      → Finds w path body (keygen static rand now host port decoy out_dir).server
      → let made = keygen static rand now host port decoy out_dir in
        (start w path
          ≡ ok (record {
            quic = some (record { noise_static = static; prologue = default_prologue });
            tcp = some (record {
              magic_snis = decoy ∷ [];
              decoy_addr = decoy ++ codes ":443";
              noise_static = static;
              prologue = default_prologue;
              decoy_reachable = w.decoy_reachable;
              tls_handshake = w.tls_handshake;
            });
            accepted_uuids = made.uuid ∷ [];
          }))
        × (open_link net made.link (codes "tcp") insecure
            ≡ ok (dialer w.x25519 static rand now host port decoy i insecure, made.uuid))
  unfolding keygen start keygen_server quic_listen listen with_default
  fresh_deployment path body net insecure f = (
    rw (loaded path body f) (
        rw (f.certificate _ _) (
          rw (key_read w.x25519 static rand now host port decoy i) (
            rw
              (
                f.quic (b':' ∷ decimal port),
                f.tcp (b':' ∷ decimal port),
                magic_of_some decoy has_decoy,
              )
              refl))),
    link_opens w.x25519 static rand now host port decoy i net insecure,
  )
