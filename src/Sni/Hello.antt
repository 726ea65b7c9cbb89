-- ===== src/Sni/Hello.antt =====
-- What RFC 8446 and RFC 6066 say of a ClientHello with a server name: its bytes.
use avangard_private.Common.{
  ℕ, ◌+◌, ◌/◌, ◌%◌, ◌<◌, ◌≤◌, ◌≡◌, ◌≢◌, List, [], ◌∷◌, ◌++◌, Bytes, All, length,
}
use avangard_private.Protocol.{big_endian16}

-- The extensions behind the server name are bytes of any form.
pub record Hello : Type 0 where
  pub version_random : Bytes
  pub session_id : Bytes
  pub cipher_suites : Bytes
  pub compression : Bytes
  pub extensions_before : List (ℕ × Bytes)
  pub name : Bytes
  pub after : Bytes

abbrev pub extension : ℕ → Bytes → Bytes
extension t body = big_endian16 t ++ (big_endian16 (length body) ++ body)

-- A list of one name, of type host_name.
abbrev pub name_data : Bytes → Bytes
name_data name =
    big_endian16 (length name + 3) ++ ((0 ∷ []) ++ (big_endian16 (length name) ++ name))

abbrev pub with_extensions : List (ℕ × Bytes) → Bytes → Bytes
with_extensions [] rest = rest
with_extensions ((t, body) ∷ es) rest = extension t body ++ with_extensions es rest

abbrev pub all_extensions : Hello → Bytes
all_extensions h = with_extensions h.extensions_before (extension 0 (name_data h.name) ++ h.after)

abbrev pub message : Hello → Bytes
message h =
    h.version_random
    ++ ((length h.session_id ∷ h.session_id)
        ++ ((big_endian16 (length h.cipher_suites) ++ h.cipher_suites)
            ++ ((length h.compression ∷ h.compression)
                ++ (big_endian16 (length (all_extensions h)) ++ all_extensions h))))

-- The handshake message with its header, and the record.
abbrev pub handshake_bytes : Hello → Bytes
handshake_bytes h =
    1
    ∷ length (message h) / 65536
    ∷ length (message h) / 256 % 256
    ∷ length (message h) % 256
    ∷ message h

abbrev pub record_bytes : Hello → Bytes
record_bytes h = 0x16 ∷ 3 ∷ 1 ∷ (big_endian16 (length (handshake_bytes h)) ++ handshake_bytes h)

-- The lengths fit their fields and the record, the name has two bytes at least, and the extensions in
-- front of it are others.
pub record IsHello (h : Hello) : Type 0 where
  pub fixed_length : length h.version_random ≡ 34
  pub session_id_length : length h.session_id < 256
  pub compression_length : length h.compression < 256
  pub name_length : 2 ≤ length h.name
  pub others : All (λ e. (e.0 ≢ 0) × (e.0 < 65536)) h.extensions_before
  pub record_length : length (handshake_bytes h) ≤ 16384
