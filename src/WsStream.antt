-- ===== src/WsStream.antt =====
-- pkg/transport/ws/ws.go, `wsStream`: a stream of bytes over WebSocket messages. The connection is the
-- list of the messages that still come in before it breaks, and of those that were sent.
pub mod Bytestream
use Prim.Native.Nat.{min}
use avangard_private.Common.{ℕ, List, [], ◌∷◌, ◌++◌, Bytes, length, take, drop, Option, none, some}

pub record WsConn : Type 0 where
  pub messages : List Bytes
  pub sent : List Bytes

pub record WsStream : Type 0 where
  pub conn : WsConn
  pub read_buf : Bytes

-- The end of `Read`, with a buffer of n bytes.
abbrev copy_out : ℕ → WsStream → Bytes × WsStream
copy_out n s =
    let k = min n (length s.read_buf) in
    (take k s.read_buf, record s { read_buf = drop k s.read_buf })

abbrev refill : ℕ → List Bytes → WsStream → Option (Bytes × WsStream)
refill n [] s = none
refill n (msg ∷ ms) s =
    some (copy_out n (record s { conn = record s.conn { messages = ms }; read_buf = msg }))

abbrev read_from : ℕ → Bytes → WsStream → Option (Bytes × WsStream)
read_from n [] s = refill n s.conn.messages s
read_from n (x ∷ buf) s = some (copy_out n s)

-- `Read` with a buffer of n bytes; an error of the connection is `none`.
unfoldable pub ws_read : ℕ → WsStream → Option (Bytes × WsStream)
ws_read n s = read_from n s.read_buf s

-- `Write` on a connection that has not broken.
unfoldable pub ws_write : Bytes → WsStream → WsStream
ws_write p s = record s { conn = record s.conn { sent = s.conn.sent ++ p ∷ [] } }
