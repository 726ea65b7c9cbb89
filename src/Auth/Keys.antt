-- ===== src/Auth/Keys.antt =====
-- pkg/auth/noise.go: the server's static key from its private half. X25519 with the base point is a parameter;
-- `none` is its error.
use avangard_private.Common.{Bytes, length, ◌==◌, Option, Result, ok, ◌>>=◌, ◌>>◌, guard, or_fail}
use avangard_private.Auth.Handshake.{StaticKey}

pub data KeyError : Type 0 where
  bad_priv derive_pub : KeyError

-- `StaticFromPriv`
unfoldable pub static_from_priv : (Bytes → Option Bytes) → Bytes → Result KeyError StaticKey
static_from_priv x25519 priv = do
  guard (length priv == 32) bad_priv
  public ← or_fail (x25519 priv) derive_pub
  ok (record { public = public; private = priv })
