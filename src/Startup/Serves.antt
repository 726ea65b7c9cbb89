-- ===== src/Startup/Serves.antt =====
-- A fresh deployment at work: from what `keygen` made to a connection of the server.
use avangard_private.Common.{
  ℕ, ◌≡◌, ◌≤◌, ◌<◌, ◌^◌, refl, sym, inl, [], ◌∷◌, ◌++◌, Bytes, length, ◌==◌, Bool, true, false,
  Option, none, some, ok, codes,
}
use avangard_private.Net.{join_host_port, decimal}
use avangard_private.Net.HostPort.{IsClean}
use avangard_private.Auth.Handshake.{StaticKey, Noise}
use avangard_private.Auth.Handshake.Agreement.{Completes}
use avangard_private.Transport.{
  ClientConfig, default_prologue, client_hello_payload, server_hello_payload,
}
use avangard_private.Dialer.{Network}
use avangard_private.Sni.Hello.{Hello, IsHello}
use avangard_private.TcpServer.{Server}
use avangard_private.Servers.{StreamServer}
use avangard_private.System.{Reaches, socks_to_destination}
use avangard_private.Client.{open_link}
use avangard_private.Keygen.{keygen}
use avangard_private.Keygen.Agrees.{IsInput, dialer}
use avangard_private.Startup.{Host, start}
use avangard_private.Startup.Fresh.{Finds, fresh_deployment}

-- The TCP listener of a fresh deployment.
abbrev tcp_server : Host → StaticKey → Bytes → Server
tcp_server w static decoy = record {
  magic_snis = decoy ∷ [];
  decoy_addr = decoy ++ codes ":443";
  noise_static = static;
  prologue = default_prologue;
  decoy_reachable = w.decoy_reachable;
  tls_handshake = w.tls_handshake;
}

module _ (N : Noise) (parse_ip : Bytes → Option Bytes) (hmac : Bytes → Bytes → Bytes)
    (ip_string : Bytes → Bytes) (dial : Bytes → Bool) where
  -- keygen is run with a key pair of X25519, random bytes, a public host that is a name of letters,
  -- digits, dots and dashes, a port of a signed word, a decoy and a directory; and run finds the
  -- configuration that keygen wrote, a certificate that loads, and addresses that it can listen on. The
  -- Noise library and HMAC do what they document, and the network carries what each side sends. The
  -- ClientHello that the client's TLS sends has the server name of its configuration. Then the server
  -- starts, and a client makes a tcp dialer of the printed link. An application that asks the client's SOCKS5
  -- server for a name (of 1 to 255 bytes, with no bracket, and no IP address) and a port below 65536 that
  -- the server can reach is told of success, and the server, which accepts the one identity of the link,
  -- dials that very name and port and relays what the application sends.
  pub deployment_serves :
      (w : Host) (static : StaticKey) (rand : Option Bytes) (now : ℕ)
      (public decoy out_dir path body : Bytes) (public_port : ℕ) (net : Network) (insecure : Bool)
      (h : Hello) (rest_c rest methods host payload : Bytes) (m n port : ℕ)
      → (i : IsInput w.x25519 static rand public public_port decoy) → (length decoy == 0) ≡ false
      → (length out_dir == 0) ≡ false
      → Finds w path body (keygen static rand now public public_port decoy out_dir).server
      → Completes N static default_prologue client_hello_payload server_hello_payload
      → ((key message : Bytes) → length (hmac key message) ≡ 32)
      → IsHello h
      → h.name ≡ (dialer w.x25519 static rand now public public_port decoy i insecure).sni
      → parse_ip host ≡ none
      → IsClean host
      → 0 < length host
      → length host ≤ 255
      → port < 2 ^ 16
      → dial (join_host_port host (decimal port)) ≡ true
      → let made = keygen static rand now public public_port decoy out_dir in
        (s : Server) × (q : StreamServer) × (c : ClientConfig) × (start w path
          ≡ ok (record { quic = some q; tcp = some s; accepted_uuids = made.uuid ∷ [] }))
        × (open_link net made.link (codes "tcp") insecure ≡ ok (c, made.uuid))
        × Reaches N parse_ip hmac ip_string
            (made.uuid ∷ [])
            dial
            s
            c
            net
            h
            rest_c
            rest
            methods
            host
            payload
            m
            n
            port
  unfolding keygen
  deployment_serves w static rand now public decoy out_dir path body public_port net insecure h
        rest_c rest methods host payload m n port i has_decoy has_dir f k hm a name ip clean l u lt
        up =
      let (running, opened) =
        fresh_deployment w static rand now public public_port decoy out_dir i has_decoy has_dir path
          body net insecure f in
      (
        tcp_server w static decoy,
        record { noise_static = static; prologue = default_prologue },
        dialer w.x25519 static rand now public public_port decoy i insecure,
        running,
        opened,
        socks_to_destination N parse_ip hmac ip_string _ dial (tcp_server w static decoy)
            (dialer w.x25519 static rand now public public_port decoy i insecure) net h rest_c rest
            methods host payload m n port k hm refl refl (inl refl) a (inl (sym name)) ip clean l u
            lt up,
      )
