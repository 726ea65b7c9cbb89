-- ===== src/Tests/Links.antt =====
-- pkg/uri and the commands of the server and the client, from keygen on.
use avangard_private.Common.{
  ◌≡◌, ◌↔◌, refl, inl, true, false, [], ◌∷◌, Bytes, replicate, Option, none, some, ok, codes, arith,
}
use avangard_private.Transport.{ClientConfig, default_prologue}
use avangard_private.Url.{all}
use avangard_private.Uri.{UriConfig, get_or_default, parse, print}
use avangard_private.Uri.RoundTrip.{IsPrintable, parse-print}
use avangard_private.Client.{open_link}
use avangard_private.Keygen.{Generated, keygen}
use avangard_private.Keygen.Agrees.{IsInput, dialer}
use avangard_private.Startup.{Host, Running, start}
use avangard_private.Config
use avangard_private.Auth.Handshake.{StaticKey}
use avangard_private.Startup.Sound.{Starts, running, start_iff}
use avangard_private.Startup.Fresh.{Finds, fresh_deployment}
use avangard_private.Tests.Toys.{static_key, toy_noise}
use avangard_private.Tests.Systems.{network, toy_completes, length-toy_hmac}
use avangard_private.Tests.Hellos.{browser, browser-IsHello}
use avangard_private.Tests.Tunnels.{toy_hmac, no_ip, as_is, reachable, ab-IsClean}
use avangard_private.System.{Reaches}
use avangard_private.TcpServer.{Server}
use avangard_private.Servers.{StreamServer}
use avangard_private.Startup.Serves.{deployment_serves}

-- Without a mode, and with bytes that have to be escaped.
abbrev link : UriConfig
link = record {
  uuid = codes "u/1";
  host = codes "s-1.ru";
  port = 8443;
  sni = codes "ya.ru&x";
  fingerprint = codes "yandex";
  mode = [];
  region = codes "RU";
  server_pub = static_key.public;
  tofu_hash = [];
  name = codes "at home";
}

link-IsPrintable : IsPrintable link
unfolding all
link-IsPrintable = record {
  bytes = record {
    uuid = omega arith;
    sni = omega arith;
    fingerprint = omega arith;
    mode = tt;
    region = omega arith;
    server_pub = omega arith;
    tofu_hash = tt;
    name = omega arith;
  };
  has_uuid = refl;
  has_host = refl;
  host_name = refl;
  port_word = omega arith;
  key = inl refl;
  no_mark = refl;
}

parse-print_example : parse (print link) ≡ ok (record link { mode = codes "auto" })
unfolding get_or_default
parse-print_example = parse-print link link-IsPrintable

abbrev random : Option Bytes
random = some (replicate 16 7)

abbrev made : Generated
made = keygen static_key random 0 (codes "s.ru") 443 (codes "ya.ru") (codes "/etc/a")

abbrev machine : Host
machine = record {
  read_file = λ path. some (codes "yaml");
  decode_yaml = λ body. made.server;
  certificate = λ cert key. true;
  x25519 = λ private. some (replicate 32 1);
  listens_quic = λ addr. true;
  listens_tcp = λ addr. true;
  decoy_reachable = true;
  tls_handshake = λ bytes. none;
}

input : IsInput machine.x25519 static_key random (codes "s.ru") 443 (codes "ya.ru")
unfolding all
input = record {
  key_pair = refl;
  private_length = refl;
  private_bytes = omega arith;
  public_length = refl;
  public_bytes = omega arith;
  random = omega arith;
  host_name = refl;
  has_host = refl;
  port_word = omega arith;
  decoy_bytes = omega arith;
}

found : Finds machine (codes "server.yaml") (codes "yaml") made.server
found = record {
  file = refl;
  decoded = refl;
  certificate = λ cert key. refl;
  quic = λ addr. refl;
  tcp = λ addr. refl;
}

abbrev in_service : Running
in_service = record {
  quic = some (record { noise_static = static_key; prologue = default_prologue });
  tcp = some (record {
    magic_snis = codes "ya.ru" ∷ [];
    decoy_addr = codes "ya.ru:443";
    noise_static = static_key;
    prologue = default_prologue;
    decoy_reachable = true;
    tls_handshake = λ bytes. none;
  });
  accepted_uuids = made.uuid ∷ [];
}

fresh_deployment_example :
    (start machine (codes "server.yaml") ≡ ok in_service)
    × (open_link network made.link (codes "tcp") false
        ≡ ok (
          dialer machine.x25519 static_key random 0 (codes "s.ru") 443 (codes "ya.ru") input false,
          made.uuid,
        ))
fresh_deployment_example =
    fresh_deployment machine static_key random 0 (codes "s.ru") 443 (codes "ya.ru") (codes "/etc/a")
      input refl refl (codes "server.yaml") (codes "yaml") network false found

start_iff_example : (start machine (codes "server.yaml") ≡ ok in_service) ↔ (
    (cfg : Config.ServerConfig) × (static : StaticKey) × Starts machine
      (codes "server.yaml")
      cfg
      static
    × (in_service ≡ running machine cfg static))
start_iff_example = start_iff machine (codes "server.yaml") in_service

deployment_serves_example :
    (s : Server) × (q : StreamServer) × (c : ClientConfig) × (start machine (codes "server.yaml")
      ≡ ok (record { quic = some q; tcp = some s; accepted_uuids = made.uuid ∷ [] }))
    × (open_link network made.link (codes "tcp") false ≡ ok (c, made.uuid))
    × Reaches toy_noise no_ip toy_hmac as_is
        (made.uuid ∷ [])
        reachable
        s
        c
        network
        browser
        (codes "r")
        (codes "x")
        (0 ∷ [])
        (codes "ab")
        (codes "GET")
        0
        0
        80
deployment_serves_example =
    deployment_serves toy_noise no_ip toy_hmac as_is reachable machine static_key random 0
      (codes "s.ru") (codes "ya.ru") (codes "/etc/a") (codes "server.yaml") (codes "yaml") 443
      network false browser (codes "r") (codes "x") (0 ∷ []) (codes "ab") (codes "GET") 0 0 80 input
      refl refl found (toy_completes default_prologue) length-toy_hmac browser-IsHello refl refl
      ab-IsClean (omega arith) (omega arith) (omega arith) refl
