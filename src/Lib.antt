-- ===== src/Lib.antt =====
-- Verification of AVANGARD, a tunnel that looks like a browser's TLS connection.
--
-- How the program works, and which file models which part. Paths are those of the repository.
--
-- * An application asks the local SOCKS5 server (cmd/avangard-client/main.go, `handleSOCKS`: Socks) for
--   a destination. The client opens a stream and writes a header with a token, the command and the
--   destination on it (pkg/tunnel/client.go: Tunnel.Client). The header's format is
--   pkg/protocol/header.go: Protocol. The token binds an identity to the stream's channel binding
--   (pkg/auth/token.go: Auth.Token).
-- * The stream stands on TLS and a Noise handshake inside of it (pkg/auth/noise.go: the frames are
--   Auth.Frames, the two sides Auth.Handshake, the server's key Auth.Keys). The clients of the four transports
--   (pkg/transport/tcp, ws, quic, smuxtcp: Dialer, with the types of pkg/transport/types.go in
--   Transport) dial, make TLS, and shake hands. The smux client opens many streams over one connection
--   (SmuxClient), and pkg/transport/ws/ws.go makes a stream of bytes from WebSocket messages (WsStream).
-- * The server's TCP listener (pkg/transport/tcp/server.go: TcpServer) first looks for the server name
--   in the ClientHello (pkg/transport/tcp/sni.go: Sni). A connection with another name is proxied to a
--   decoy, and what was read of it is given again (`peekConn`). The others go through both handshakes.
--   The handlers of the other transports' servers are Servers, and the channel that takes what they
--   authenticate to `Accept` is the step relation of Acceptor. Servers.Agreement sets them against the
--   clients.
-- * On an accepted stream the server (pkg/tunnel/server.go: Tunnel.Server) decodes the header, checks
--   the token against the accepted identities, and dials the destination or answers a ping.
--   Tunnel.EndToEnd sets the tunnel's client against its server, and System the whole client, from the SOCKS5
--   request on, against the whole server. `CompositeListener`, which takes the streams of several
--   listeners to one channel, is the step relation of Tunnel.Composite.
-- * A server is set up by `keygen` (cmd/avangard-server/main.go: Keygen), which makes a key pair, an
--   identity, a configuration and a link. `run` (Startup) makes the listeners of the configuration
--   (pkg/config/config.go: Config). The client's commands (cmd/avangard-client/main.go: Client) parse the
--   link (pkg/uri/uri.go: Uri, on Url and Base64) and build a dialer. Startup.Fresh sets them against
--   each other, and Startup.Serves has a fresh deployment serve an application.
-- * pkg/replay/bloom.go (Replay) refuses payloads that were seen before, by two bloom filters that
--   rotate. Its bits, and those of pkg/blocklist/rkn.go (Blocklist), are the words of Bitset.
-- * pkg/regionshield (RegionShield) chooses a transport mode (Mode, from pkg/uri/uri.go) from a profile
--   of the region and the outcome of probes that run at once (pkg/autoprobe/probe.go: Autoprobe).
--   pkg/utlsx/utlsx.go (Utlsx) chooses the browser to mimic.
-- * Common is the shared notation and lemmas, Net, Url and Base64 what the code uses of Go's net,
--   strconv, net/url and encoding/base64, Duplex a stream that is read and written, and Tests has
--   concrete runs.
--
-- How the code is translated. Bytes, ports and words are natural numbers, with Go's wrap-around written
-- out; text is the list of its bytes. A reader is the list of the bytes that it still gives before it
-- ends; reading gives `none` where io.ReadFull gives an error. A function with an error result is a
-- `Result` with one constructor for each of its errors. A handler gives the list of the actions that it
-- does, in order. Go's bounds checks are kept where the code slices what a peer sent (Sni).
--
-- Parameters stand for code outside of the repository: HMAC-SHA256, SHA-256 and FNV, net.ParseIP and
-- net.IP.String, X25519, the Noise library (a record of its calls, with its documented behaviour as
-- `Completes`), the TLS, QUIC, WebSocket and smux libraries (what the network answers), the YAML and XML
-- decoders, files, the answer and the time of a probe's dial, and whether a dial succeeds.
--
-- Fuel. The loop over the extensions of a ClientHello has one more unit than there are bytes, and each
-- round passes four; running out is an error value that no input reaches. `itoa` has one more unit than
-- the number, which each round divides by ten. All other loops are recursions over a list or a count.
--
-- What is not modelled: deadlines beside the one for the header, logging, flags, printing, signals and the
-- self-signed certificate, which are calls of Go's library; the copying of bytes in both directions once
-- a tunnel is open (the action `relays` names where it starts); the text of the YAML that `keygen` writes,
-- whose values are a record; negative ports in a link; and concurrency beside that of the composite
-- listener, of Acceptor, of the probes and of Replay.Concurrent.
pub mod Common
pub mod Protocol
pub mod Duplex
pub mod Auth
pub mod Transport
pub mod Dialer
pub mod Net
pub mod Url
pub mod Base64
pub mod Bitset
pub mod Blocklist
pub mod Replay
pub mod Sni
pub mod TcpServer
pub mod Servers
pub mod Acceptor
pub mod System
pub mod Autoprobe
pub mod Mode
pub mod Uri
pub mod Keygen
pub mod Startup
pub mod RegionShield
pub mod Socks
pub mod Client
pub mod Config
pub mod Utlsx
pub mod WsStream
pub mod SmuxClient
pub mod Tunnel
mod Tests
