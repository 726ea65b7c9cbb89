-- ===== src/Tests/Hellos.antt =====
-- pkg/transport/tcp on a ClientHello for "ya.ru", whole and cut short.
use avangard_private.Common.{
  arith, ℕ, ◌<◌, ◌≡◌, ◌⊎◌, inl, inr, refl, true, [], ◌∷◌, ◌++◌, Bytes, Any, ok, replicate, take,
  none, some, codes, equal, read_full,
}
use avangard_private.Sni.{
  read_header, read_body, index, cut, uint16_at, server_name, walk, skip_session_id,
  skip_cipher_suites, skip_compression, extensions, client_hello, handshake, peek_body, peek_record,
  peek_client_hello_sni,
}
use avangard_private.Sni.Hello.{Hello, IsHello, record_bytes}
use avangard_private.Sni.Finds.{peek_client_hello_sni-record_bytes}
use avangard_private.TcpServer.Served.{handle_conn-record_bytes}
use avangard_private.Sni.Safe.{Reports, peek_client_hello_sni-Reports}
use avangard_private.Sni.Raw.{HandsOn, peek_client_hello_sni-HandsOn}
use avangard_private.Duplex.{Duplex, write, read_n}
use avangard_private.Auth.Frames.{read_frame, write_frame}
use avangard_private.Auth.Handshake.{server_handshake}
use avangard_private.Transport.{TunnelStream, server_hello_payload}
use avangard_private.Tests.Toys.{static_key, toy_noise}
use avangard_private.TcpServer.{
  Server, handle_conn, dropped, decoy, offered, is_magic_sni, member, terminate,
}
use avangard_private.TcpServer.Routes.{Handshaken, offered_sound, prober_sees_decoy}
use avangard_private.TcpServer.Replayed.{pending, read_all, read_all-pending}

abbrev hello : Bytes
hello =
    (0x16 ∷ 3 ∷ 1 ∷ 0 ∷ 61 ∷ [])
    ++ (1 ∷ 0 ∷ 0 ∷ 57 ∷ [])
    ++ (3 ∷ 3 ∷ replicate 32 0)
    ++ (0 ∷ 0 ∷ 2 ∷ 19 ∷ 1 ∷ 1 ∷ 0 ∷ [])
    ++ (0 ∷ 14 ∷ 0 ∷ 0 ∷ 0 ∷ 10 ∷ 0 ∷ 8 ∷ 0 ∷ 0 ∷ 5 ∷ codes "ya.ru")

peek_hello :
    peek_client_hello_sni (hello ++ codes "x")
    ≡ record { sni = codes "ya.ru"; raw = hello; error = none; unread = codes "x" }
unfolding peek_client_hello_sni peek_record peek_body handshake client_hello skip_session_id
    skip_cipher_suites skip_compression extensions walk server_name uint16_at cut index read_full
peek_hello = refl

peek_client_hello_sni-Reports_example : Reports (peek_client_hello_sni (take 40 hello)).error
peek_client_hello_sni-Reports_example = peek_client_hello_sni-Reports (take 40 hello)

peek_client_hello_sni-HandsOn_example :
    HandsOn (take 40 hello) (peek_client_hello_sni (take 40 hello))
peek_client_hello_sni-HandsOn_example = peek_client_hello_sni-HandsOn (take 40 hello)

-- What the TLS handshake leaves to the Noise handshake: the first message, in a frame.
abbrev pub inside : Duplex
inside = record { incoming = 0 ∷ 3 ∷ 1 ∷ 0x68 ∷ 0x69 ∷ codes "more"; sent = []; writes_left = 2 }

abbrev pub served : TunnelStream
served = record {
  channel = 9 ∷ [];
  conn = record {
    incoming = codes "more";
    sent = 0 ∷ 19 ∷ 2 ∷ server_hello_payload;
    writes_left = 0;
  };
}

abbrev pub server : Server
server = record {
  magic_snis = codes "ya.ru" ∷ [];
  decoy_addr = codes "d:443";
  decoy_reachable = true;
  noise_static = static_key;
  prologue = codes "p";
  tls_handshake = λ b. some inside;
}

offered_run : handle_conn toy_noise server (hello ++ codes "x") ≡ offered served
unfolding handle_conn is_magic_sni member terminate equal server_handshake read_frame write_frame
    read_full write read_n
offered_run = rw peek_hello refl

offered_sound_example :
    ((server.magic_snis ≡ [])
      ⊎ Any (λ x. x ≡ (peek_client_hello_sni (hello ++ codes "x")).sni) server.magic_snis)
    × Handshaken toy_noise server
        ((peek_client_hello_sni (hello ++ codes "x")).raw
          ++ (peek_client_hello_sni (hello ++ codes "x")).unread)
        served
offered_sound_example = offered_sound toy_noise server (hello ++ codes "x") served offered_run

abbrev probe : Bytes
probe = codes "GET / HTTP/1.0"

not_magic : ¬ Any (λ x. x ≡ (peek_client_hello_sni probe).sni) server.magic_snis
unfolding peek_client_hello_sni peek_record read_full
not_magic (inl e) = absurd (cc)
not_magic (inr e) = absurd e

prober_sees_decoy_example :
    ((handle_conn toy_noise server probe ≡ dropped)
      × ((peek_client_hello_sni probe).error ≡ some read_header))
    ⊎ (handle_conn toy_noise server probe ≡ decoy probe)
    ⊎ ((k : ℕ) × (0 < k)
        × (handle_conn toy_noise server probe ≡ decoy (probe ++ replicate k 0))
        × ((peek_client_hello_sni probe).error ≡ some read_body))
prober_sees_decoy_example =
    prober_sees_decoy toy_noise server probe (λ e. absurd (cc)) not_magic (λ e. absurd (cc)) refl

read_all-pending_example :
    (read_all
        ((3, 9) ∷ (3, 9) ∷ (4, 1) ∷ [])
        (record { replay = codes "abcd"; conn = codes "xyz" })).0
      ++ pending
          (read_all
            ((3, 9) ∷ (3, 9) ∷ (4, 1) ∷ [])
            (record { replay = codes "abcd"; conn = codes "xyz" })).1
    ≡ codes "abcdxyz"
read_all-pending_example =
    read_all-pending ((3, 9) ∷ (3, 9) ∷ (4, 1) ∷ [])
      (record { replay = codes "abcd"; conn = codes "xyz" })

abbrev pub browser : Hello
browser = record {
  version_random = 3 ∷ 3 ∷ replicate 32 0;
  session_id = [];
  cipher_suites = 19 ∷ 1 ∷ [];
  compression = 0 ∷ [];
  extensions_before = (10, 0 ∷ 2 ∷ 0 ∷ 29 ∷ []) ∷ [];
  name = codes "ya.ru";
  after = 0 ∷ 43 ∷ 0 ∷ 3 ∷ 2 ∷ 3 ∷ 4 ∷ [];
}

pub browser-IsHello : IsHello browser
browser-IsHello = record {
  fixed_length = refl;
  session_id_length = omega arith;
  compression_length = omega arith;
  name_length = omega arith;
  others = ((λ e. omega arith, omega arith), tt);
  record_length = omega arith;
}

peek_client_hello_sni-record_bytes_example :
    peek_client_hello_sni (record_bytes browser ++ codes "x")
    ≡ record { sni = codes "ya.ru"; raw = record_bytes browser; error = none; unread = codes "x" }
peek_client_hello_sni-record_bytes_example =
    peek_client_hello_sni-record_bytes browser (codes "x") browser-IsHello

noise_run :
    server_handshake toy_noise static_key (codes "p") server_hello_payload inside
    ≡ ok (record { send = 6; recv = 5; hash = 9 ∷ []; payload = codes "hi" }, served.conn)
unfolding server_handshake read_frame write_frame read_full write read_n
noise_run = refl

handle_conn-record_bytes_example :
    handle_conn toy_noise server (record_bytes browser ++ codes "x") ≡ offered served
handle_conn-record_bytes_example =
    handle_conn-record_bytes toy_noise server browser (codes "x") inside served.conn
      (record { send = 6; recv = 5; hash = 9 ∷ []; payload = codes "hi" }) browser-IsHello
      (inl refl) refl noise_run
