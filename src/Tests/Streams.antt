-- ===== src/Tests/Streams.antt =====
-- pkg/transport/ws/ws.go: two pieces, read with buffers of three and two bytes; and the smux client.
use avangard_private.Common.{
  arith, ◌+◌, ◌<◌, ◌≡◌, ◌⊎◌, refl, [], ◌∷◌, ◌++◌, Bytes, length, none, some, codes,
}
use avangard_private.Common.{Any, ok, true, false}
use avangard_private.SmuxClient.{Answers, SmuxStream, new_client, smux_dial}
use avangard_private.SmuxClient.Bound.{SameOuter, smux_dial_all, smux_dial_bound}
use avangard_private.WsStream.{WsStream, ws_read, ws_write}
use avangard_private.WsStream.Bytestream.{
  unread, ws_read_all, ws_write_all, ws_read_all-ws_write_all, ws_read_progress,
}

abbrev writer : WsStream
writer = record { conn = record { messages = []; sent = [] }; read_buf = [] }

abbrev reader : WsStream
reader = record {
  conn = record { messages = codes "abcd" ∷ [] ∷ codes "e" ∷ []; sent = [] };
  read_buf = [];
}

written :
    (ws_write_all (codes "abcd" ∷ [] ∷ codes "e" ∷ []) writer).conn.sent
    ≡ codes "abcd" ∷ [] ∷ codes "e" ∷ []
unfolding ws_write_all ws_write
written = refl

read_run : (ws_read_all (3 ∷ 2 ∷ 2 ∷ 2 ∷ []) reader).0 ≡ codes "abcde"
unfolding ws_read_all ws_read
read_run = refl

ws_read_all-ws_write_all_example :
    (ws_read_all (3 ∷ 2 ∷ []) reader).0 ++ unread (ws_read_all (3 ∷ 2 ∷ []) reader).1
    ≡ codes "abcde"
ws_read_all-ws_write_all_example =
    ws_read_all-ws_write_all (codes "abcd" ∷ [] ∷ codes "e" ∷ []) (3 ∷ 2 ∷ []) writer reader refl
      refl (rw written refl)

ws_read_progress_example :
    ((ws_read 3 reader ≡ none) × (unread reader ≡ []) × (reader.conn.messages ≡ []))
    ⊎ ((out : Bytes) × (s' : WsStream) × (ws_read 3 reader ≡ some (out, s'))
        × (length (unread s') + length s'.conn.messages
            < length (unread reader) + length reader.conn.messages))
ws_read_progress_example = ws_read_progress 3 reader (omega arith)

-- pkg/transport/smuxtcp/smuxtcp.go: a second call finds the session broken and dials again.
abbrev first_call : Answers
first_call = record {
  is_closed = false;
  outer1 = some (record { session = 1; raw = 2; hash = 7 ∷ [] });
  open1 = true;
  outer2 = none;
  open2 = false;
}

abbrev second_call : Answers
second_call = record {
  is_closed = false;
  outer1 = none;
  open1 = false;
  outer2 = some (record { session = 3; raw = 4; hash = 8 ∷ [] });
  open2 = true;
}

abbrev second_stream : SmuxStream
second_stream = record { session = 3; raw = some 4; hash = 8 ∷ [] }

second_run :
    (smux_dial (smux_dial_all (first_call ∷ []) new_client) second_call).1 ≡ ok second_stream
unfolding smux_dial smux_dial_all
second_run = refl

smux_dial_bound_example :
    Any
      (SameOuter 3 (some 4) (8 ∷ []))
      (smux_dial (smux_dial_all (first_call ∷ []) new_client) second_call).0.established
smux_dial_bound_example = smux_dial_bound (first_call ∷ []) second_call second_stream second_run
