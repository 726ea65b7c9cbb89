-- ===== src/Transport.antt =====
-- pkg/transport/types.go: what the transports share. A certificate is present or not; loggers are left
-- out.
use avangard_private.Common.{Bool, List, Bytes, length, ◌==◌, if◌then◌else◌, codes}
use avangard_private.Duplex.{Duplex}
use avangard_private.Auth.Handshake.{StaticKey}

-- `TunnelStream`: the channel binding and the bytes.
pub record TunnelStream : Type 0 where
  pub channel : Bytes
  pub conn : Duplex

pub record ServerConfig : Type 0 where
  pub addr : Bytes
  pub accepted_uuids : List Bytes
  pub noise_static : StaticKey
  pub has_cert : Bool
  pub decoy_addr : Bytes
  pub prologue : Bytes

pub record ClientConfig : Type 0 where
  pub addr : Bytes
  pub uuid : Bytes
  pub sni : Bytes
  pub server_static_pub : Bytes
  pub insecure_skip_verify : Bool
  pub prologue : Bytes
  pub fingerprint : Bytes

abbrev pub default_prologue : Bytes
default_prologue = codes "avangard-v1"

-- `if len(cfg.Prologue) == 0 { cfg.Prologue = transport.DefaultPrologue }`, which every transport does.
unfoldable pub with_default : Bytes → Bytes
with_default prologue = if length prologue == 0 then default_prologue else prologue

-- The payloads of the two Noise messages.
abbrev pub client_hello_payload : Bytes
client_hello_payload = codes "avangard-cli-hello"

abbrev pub server_hello_payload : Bytes
server_hello_payload = codes "avangard-srv-hello"
