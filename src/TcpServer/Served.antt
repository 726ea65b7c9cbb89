-- ===== src/TcpServer/Served.antt =====
-- pkg/transport/tcp/server.go: a client that knows a magic name is served.
use avangard_private.Common.{◌≡◌, ◌++◌, Bytes, Any, some, ok, arith}
use avangard_private.Duplex.{Duplex}
use avangard_private.Auth.Handshake.{Noise, HandshakeResult, server_handshake}
use avangard_private.Transport.{server_hello_payload}
use avangard_private.Sni.Hello.{Hello, IsHello, record_bytes}
use avangard_private.Sni.Finds.{peek_client_hello_sni-record_bytes}
use avangard_private.TcpServer.{Server, offered, is_magic_sni, terminate, handle_conn}
use avangard_private.TcpServer.Routes.{member_iff}

-- A client that begins with a well-formed ClientHello for one of the magic names is offered to `Accept`
-- with the transcript hash as channel binding, if the TLS handshake succeeds on the very bytes that it
-- sends and the Noise handshake succeeds on the stream inside.
pub handle_conn-record_bytes :
    (N : Noise) (s : Server) (h : Hello) (rest : Bytes) (inner conn : Duplex)
    (r : HandshakeResult N.Cipher)
    → IsHello h
    → Any (λ x. x ≡ h.name) s.magic_snis
    → s.tls_handshake (record_bytes h ++ rest) ≡ some inner
    → server_handshake N s.noise_static s.prologue server_hello_payload inner ≡ ok (r, conn)
    → handle_conn N s (record_bytes h ++ rest) ≡ offered (record { channel = r.hash; conn = conn })
unfolding handle_conn is_magic_sni terminate
handle_conn-record_bytes N s h rest inner conn r w a t n =
    let m = (member_iff s.magic_snis h.name).1 a in
    rw (peek_client_hello_sni-record_bytes h rest w) (ground (arith, m, t, n))
