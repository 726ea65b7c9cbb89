-- ===== src/Tests/Servers.antt =====
-- pkg/transport's servers, pkg/autoprobe and cmd/avangard-client on small inputs.
use avangard_private.Common.{
  ℕ, ◌+◌, ◌≡◌, ◌≤◌, ◌↔◌, ◌⊎◌, inl, inr, All, ◌++◌, none, refl, true, false, List, [], ◌∷◌, Bytes,
  length, ◌==◌, if◌then◌else◌, some, ok, err, codes, arith,
}
use avangard_private.Duplex.{Duplex}
use avangard_private.Servers.{
  StreamServer, authenticated, closed, sends, finds_done, handle_stream, handle_ws, handle_outer,
}
use avangard_private.Servers.Agreement.{carrying, transports_agree}
use avangard_private.Transport.{TunnelStream}
use avangard_private.Auth.Handshake.Agreement.{opened, shaken}
use avangard_private.Acceptor
use avangard_private.Acceptor.{
  Acceptor, new_acceptor, authenticates, delivers, Reachable, start, next,
}
use avangard_private.Acceptor.Places.{count, placed, streams_placed}
use avangard_private.Acceptor.Closing.{close_race}
use avangard_private.Autoprobe.{ProbeResult}
use avangard_private.Autoprobe.Probes.{
  ProbeConfig, DialAnswer, Target, Started, goroutines, default_config, empty_result, run,
}
use avangard_private.Autoprobe.Store.{entry, found}
use avangard_private.Autoprobe.Distinct.{Has}
use avangard_private.Autoprobe.AnyOrder.{outcome, run_any_order}
use avangard_private.Uri.{UriConfig}
use avangard_private.Client.{dialer_error, build_dialer, decide, region_profile, region_command}
use avangard_private.Client.Regions.{on_443, region_command_any_order}
use avangard_private.Client.Links.{dialer_config, build_dialer_links}
use avangard_private.Dialer.{
  go_hello, bad_static_pub, quic_failed, tls_failed, alpn, tls_config, required, dial_tls,
  quic_dial, ws_dial, dial_outer,
}
use avangard_private.Tests.Toys.{static_key, toy_noise}
use avangard_private.Tests.Hellos.{inside}
use avangard_private.Tests.Systems.{network, client, toy_completes}

abbrev stream_server : StreamServer
stream_server = record { noise_static = static_key; prologue = codes "p" }

transports_agree_example :
    (from_c from_s : Bytes) × (ts ts_s : TunnelStream) × (let net =
        carrying network (opened toy_noise 1 (from_s ++ [])) in
      ((quic_dial toy_noise net client).1 ≡ ok ts)
      × ((ws_dial toy_noise net (codes "/ws") client).1 ≡ ok ts)
      × ((dial_outer toy_noise net client).1 ≡ ok ts))
    × (let conn = opened toy_noise 2 (from_c ++ codes "GET") in
        (handle_stream toy_noise stream_server conn sends ≡ authenticated ts_s)
        × (handle_ws toy_noise stream_server (some conn) sends ≡ authenticated ts_s)
        × (handle_outer toy_noise stream_server (some conn) true (some inside) sends
            ≡ authenticated (record { channel = ts.channel; conn = inside }))
        × (handle_stream toy_noise stream_server conn finds_done ≡ closed)
        × (handle_ws toy_noise stream_server (some conn) finds_done ≡ closed)
        × (handle_outer toy_noise stream_server (some conn) true (some inside) finds_done ≡ closed))
    × (ts.channel ≡ ts_s.channel)
    × (ts.conn ≡ shaken toy_noise 1 [] from_c)
    × (ts_s.conn ≡ shaken toy_noise 2 (codes "GET") from_s)
transports_agree_example =
    transports_agree toy_noise stream_server client (toy_completes (codes "p")) refl refl network
      (codes "/ws") [] (codes "GET") 2 1 inside

-- Two streams are accepted, and the first of them is delivered.
abbrev busy : Acceptor
busy = record (new_acceptor 4) { waiting = 8 ∷ []; accepted = 7 ∷ 8 ∷ []; delivered = 7 ∷ [] }

busy-Reachable : Reachable 4 busy
unfolding new_acceptor
busy-Reachable =
    next
      (next (next (next start (authenticates 7)) (Acceptor.sends [] [] 7 refl (omega arith)))
        (delivers 7 [] refl))
      (authenticates 8)

streams_placed_example :
    ((s : ℕ) → count s busy.accepted ≡ placed s busy)
    × (length busy.out ≤ 4)
    × ((busy.dropped ≡ []) ⊎ (busy.done ≡ true))
streams_placed_example = streams_placed busy-Reachable

close_race_example :
    (b : Acceptor) × Reachable 4 b × (b.panicked ≡ true) × (b.calls ≡ busy.calls + 2)
close_race_example = close_race busy-Reachable (unfold new_acceptor in refl)

-- Each goroutine's dial takes a time of its own, and only names of three letters are reached.
abbrev dial : ℕ → ℕ → Bytes → Bytes → DialAnswer
dial i timeout network addr = record {
  error = if length network == 3 then none else some (codes "no");
  elapsed = i;
}

-- The second goroutine finishes before the first one.
abbrev swapped : List Started → List Started
swapped [] = []
swapped (t ∷ []) = t ∷ []
swapped (t ∷ u ∷ ts) = u ∷ t ∷ ts

Has-swapped : (us : List Started) (u : Started) → Has u (swapped us) ↔ Has u us
Has-swapped [] u = (λ h. h, λ h. h)
Has-swapped (v ∷ []) u = (λ h. h, λ h. h)
Has-swapped (v ∷ w ∷ us) u = (
  λ h. elim h [ inl a ↦ inr (inl a) | inr k ↦ elim k [ inl b ↦ inl b | inr c ↦ inr (inr c) ] ],
  λ h. elim h [ inl a ↦ inr (inl a) | inr k ↦ elim k [ inl b ↦ inl b | inr c ↦ inr (inr c) ] ],
)

abbrev few : ProbeConfig
few = record {
  server_host = codes "s";
  alt_tcp_ports = 8443 ∷ [];
  rtt_refs = codes "a:1" ∷ [];
  timeout = 0;
}

run_any_order_example :
    (r : ProbeResult) × (run dial swapped few ≡ some r)
    × All (λ u. found u.target r ≡ some (entry u.target (outcome dial few u))) (goroutines few)
    × ((t : Target)
        → ((u : Started) × Has u (goroutines few) × (u.target ≡ t))
          ⊎ (found t r ≡ found t empty_result))
run_any_order_example =
    run_any_order dial swapped few (Has-swapped (goroutines few)) (omega arith, tt) (tt, tt)
      (tt, tt)

region_command_any_order_example :
    region_command dial swapped (codes "RU") 3216 (codes "s")
    ≡ some (decide 3216 (on_443 dial (codes "s")) (region_profile (codes "RU")))
region_command_any_order_example =
    region_command_any_order dial swapped (codes "RU") (codes "s") 3216
      (Has-swapped (goroutines (default_config (codes "s"))))

abbrev link : UriConfig
link = record {
  uuid = codes "u-1";
  host = codes "s";
  port = 443;
  sni = codes "ya.ru";
  fingerprint = codes "yandex";
  mode = [];
  region = codes "RU";
  server_pub = static_key.public;
  tofu_hash = [];
  name = codes "home";
}

build_dialer_links_example :
    (build_dialer network link (codes "tcp") false ≡ (
      if length link.server_pub == 32
      then ok (dialer_config link false)
      else err (dialer_error bad_static_pub)))
    × (build_dialer network link (codes "quic") false ≡ (
        if length link.server_pub == 32
        then (if network.quic
              (dialer_config link false).addr
              (tls_config (alpn ∷ []) (dialer_config link false))
            then ok (dialer_config link false)
            else err (dialer_error quic_failed))
        else err (dialer_error bad_static_pub)))
    × (dial_tls network (tls_config [] client) (dialer_config link false).fingerprint
        ≡ required (network.tls go_hello (tls_config [] client)) tls_failed)
build_dialer_links_example = build_dialer_links network link false (tls_config [] client)
