-- ===== src/Startup.antt =====
-- cmd/avangard-server/main.go: how the run command makes its listeners of the configuration. What follows is
-- Tunnel.Composite and Tunnel.Server; logging and signals are left out.
pub mod Fresh
pub mod Sound
pub mod Serves
use avangard_private.Common.{
  Bool, true, false, ◌||◌, List, [], ◌∷◌, Bytes, if◌then◌else◌, Option, none, some, Result, ok, err,
  ◌>>=◌, ◌>>◌, guard,
}
use avangard_private.Duplex.{Duplex}
use avangard_private.Auth.Handshake.{StaticKey}
use avangard_private.Config
use avangard_private.Config.{ConfigError, load_server}
use avangard_private.Transport
use avangard_private.Servers.{StreamServer, ServerError, quic_listen}
use avangard_private.TcpServer.{Server, ListenError, listen}
use avangard_private.Keygen.{ServerKeyError, server_key}

-- What the run command finds: files, the YAML decoder, whether a certificate and its key load, X25519
-- with the base point, whether an address can be listened on, and what the TCP server finds of the network.
pub record Host : Type 0 where
  pub read_file : Bytes → Option Bytes
  pub decode_yaml : Bytes → Option Config.ServerConfig
  pub certificate : Bytes → Bytes → Bool
  pub x25519 : Bytes → Option Bytes
  pub listens_quic : Bytes → Bool
  pub listens_tcp : Bytes → Bool
  pub decoy_reachable : Bool
  pub tls_handshake : Bytes → Option Duplex

pub data RunError : Type 0 where
  load_tls no_listeners : RunError
  config_error : ConfigError → RunError
  key_error : ServerKeyError → RunError
  quic_error : ServerError → RunError
  tcp_error : ListenError → RunError

-- The error in the words of the caller.
abbrev pub failing {ℓ κ} :
    {E : Type κ} {A : Type ℓ} → (E → RunError) → Result E A → Result RunError A
failing f (ok a) = ok a
failing f (err e) = err (f e)

-- `srvCfg`, with an address. The certificate is there.
abbrev pub server_config : Config.ServerConfig → StaticKey → Bytes → Transport.ServerConfig
server_config cfg static addr = record {
  addr = addr;
  accepted_uuids = cfg.auth.accepted_uuids;
  noise_static = static;
  has_cert = true;
  decoy_addr = cfg.decoy.addr;
  prologue = [];
}

-- The server names that the TCP listener does not send to the decoy.
abbrev pub magic_of : Bytes → List Bytes
magic_of [] = []
magic_of (x ∷ s) = (x ∷ s) ∷ []

abbrev opened {ℓ} : {A : Type ℓ} → Result RunError A → Result RunError (Option A)
opened (ok a) = ok (some a)
opened (err e) = err e

-- The listener of an address, unless it is empty.
abbrev pub open_quic :
    Host → Config.ServerConfig → StaticKey → Bytes → Result RunError (Option StreamServer)
open_quic w cfg static [] = ok none
open_quic w cfg static (x ∷ addr) = opened (
    failing quic_error
      (quic_listen (server_config cfg static (x ∷ addr)) (w.listens_quic (x ∷ addr))))

abbrev pub open_tcp :
    Host → Config.ServerConfig → StaticKey → Bytes → Result RunError (Option Server)
open_tcp w cfg static [] = ok none
open_tcp w cfg static (x ∷ addr) = opened (
    failing tcp_error (
      listen (server_config cfg static (x ∷ addr)) (magic_of cfg.decoy.domain)
        (w.listens_tcp (x ∷ addr)) w.decoy_reachable w.tls_handshake))

-- The listeners of the composite listener, and what `NewServer` takes beside it.
pub record Running : Type 0 where
  pub quic : Option StreamServer
  pub tcp : Option Server
  pub accepted_uuids : List Bytes

abbrev some_listener : Option StreamServer → Option Server → Bool
some_listener none none = false
some_listener none (some s) = true
some_listener (some q) t = true

-- newRunCmd, until it serves.
unfoldable pub start : Host → Bytes → Result RunError Running
start w config_path = do
  cfg ← failing config_error (load_server w.read_file w.decode_yaml config_path)
  guard (w.certificate cfg.tls.cert_file cfg.tls.key_file) load_tls
  static ← failing key_error (server_key w.x25519 cfg.auth.static_privkey_b64)
  quic ← open_quic w cfg static cfg.listen.quic
  tcp ← open_tcp w cfg static cfg.listen.tcp
  guard (some_listener quic tcp) no_listeners
  ok (record { quic = quic; tcp = tcp; accepted_uuids = cfg.auth.accepted_uuids })
