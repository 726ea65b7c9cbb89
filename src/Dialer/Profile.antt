-- ===== src/Dialer/Profile.antt =====
-- pkg/transport and pkg/utlsx: the ClientHello that a client is seen with.
use avangard_private.Common.{◌≡◌, refl, [], ◌∷◌, Bytes, length, ◌==◌, false, arith}
use avangard_private.Utlsx.{resolve, or_randomized, resolve-fingerprint_from_string}
use avangard_private.Dialer.{
  Network, TlsConfig, Mimicry, go_hello, browser_hello, tls_failed, required, dial_tls,
}

-- The ClientHello for the configured fingerprint: the one of Go if there is none, the named browser's
-- if it is known, and a randomized one for any other name.
abbrev pub mimicry : Bytes → Mimicry
mimicry [] = go_hello
mimicry (c ∷ fp) = browser_hello (or_randomized (resolve (c ∷ fp)))

-- Whatever fingerprint is configured, `dialTLS` makes one attempt, with the ClientHello that is meant,
-- and it fails only if the handshake does: an unknown name is never an error.
pub dial_tls_mimics :
    (net : Network) (conf : TlsConfig) (fp : Bytes)
    → dial_tls net conf fp ≡ required (net.tls (mimicry fp) conf) tls_failed
unfolding dial_tls
dial_tls_mimics net conf [] = refl
dial_tls_mimics net conf (c ∷ fp) =
    let some_name : (length (c ∷ fp) == 0) ≡ false = ground arith in
    rw some_name (rw (resolve-fingerprint_from_string (c ∷ fp)) refl)
