-- ===== src/Auth/Token.antt =====
-- pkg/auth/token.go. HMAC-SHA256 is a parameter: the key, the message, and the digest of 32 bytes.
use avangard_private.Common.{
  ℕ, ◌≡◌, sym, ◌↔◌, Bool, true, Bytes, length, length-take, take, equal, equal_iff, ◌==◌,
  if◌then◌else◌, arith,
}

abbrev pub token_len : ℕ
token_len = 16

-- `subtle.ConstantTimeCompare`
unfoldable pub constant_time_compare : Bytes → Bytes → ℕ
constant_time_compare x y = if equal x y then 1 else 0

module _ (hmac : Bytes → Bytes → Bytes) where
  unfoldable pub derive_token : Bytes → Bytes → Bytes
  derive_token uuid session_nonce = take token_len (hmac uuid session_nonce)

  unfoldable pub verify_token : Bytes → Bytes → Bytes → Bool
  unfolding constant_time_compare
  verify_token uuid session_nonce got =
      constant_time_compare (derive_token uuid session_nonce) got == 1

  -- A token is accepted exactly if it is the one derived from the same identity and nonce.
  pub verify_token_iff :
      (uuid nonce got : Bytes)
      → (verify_token uuid nonce got ≡ true) ↔ (got ≡ derive_token uuid nonce)
  unfolding verify_token
  verify_token_iff uuid nonce got = (
    λ h. sym ((equal_iff (derive_token uuid nonce) got).0 (ground arith)),
    λ e. ground (arith, equal_iff (derive_token uuid nonce) got),
  )

  pub length-derive_token :
      (uuid nonce : Bytes) → length (hmac uuid nonce) ≡ 32 → length (derive_token uuid nonce) ≡ 16
  unfolding derive_token
  length-derive_token uuid nonce h = length-take 16 (hmac uuid nonce) (omega arith)
