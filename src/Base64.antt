-- ===== src/Base64.antt =====
-- What pkg/uri uses of Go's encoding/base64: the URL alphabet without padding, and the standard one with
-- padding. Line breaks are skipped when decoding.
pub mod RoundTrip
use avangard_private.Common.{
  ℕ, ◌+◌, ◌-◌, ◌*◌, ◌/◌, ◌%◌, Bool, true, false, ◌&&◌, ◌||◌, List, [], ◌∷◌, Bytes, ltb, ◌==◌, leb,
  if◌then◌else◌, Option, none, some,
}

-- The two last characters of an alphabet.
pub record Alphabet : Type 0 where
  pub char62 : ℕ
  pub char63 : ℕ

abbrev pub url_alphabet : Alphabet
url_alphabet = record { char62 = b'-'; char63 = b'_' }

abbrev pub std_alphabet : Alphabet
std_alphabet = record { char62 = b'+'; char63 = b'/' }

unfoldable pub char_of : Alphabet → ℕ → ℕ
char_of a v =
    if ltb v 26
    then 65 + v
    else if ltb v 52
    then 71 + v
    else if ltb v 62
    then v - 4
    else if v == 62
    then a.char62
    else a.char63

unfoldable pub value_of : Alphabet → ℕ → Option ℕ
value_of a c =
    if leb 65 c && leb c 90
    then some (c - 65)
    else if leb 97 c && leb c 122
    then some (c - 71)
    else if leb 48 c && leb c 57
    then some (c + 4)
    else if c == a.char62
    then some 62
    else if c == a.char63
    then some 63
    else none

-- `RawURLEncoding.EncodeToString`, for any alphabet.
unfoldable pub encode_raw : Alphabet → Bytes → Bytes
encode_raw t [] = []
encode_raw t (a ∷ []) = char_of t (a / 4) ∷ char_of t (a % 4 * 16) ∷ []
encode_raw t (a ∷ b ∷ []) =
    char_of t (a / 4) ∷ char_of t (a % 4 * 16 + b / 16) ∷ char_of t (b % 16 * 4) ∷ []
encode_raw t (a ∷ b ∷ c ∷ s) =
    char_of t (a / 4)
    ∷ char_of t (a % 4 * 16 + b / 16)
    ∷ char_of t (b % 16 * 4 + c / 64)
    ∷ char_of t (c % 64)
    ∷ encode_raw t s

-- One, two and three bytes from two, three and four values.
abbrev pub one : Option ℕ → Option ℕ → Option Bytes
one (some a) (some b) = some ((a * 4 + b / 16) ∷ [])
one _ _ = none

abbrev pub two : Option ℕ → Option ℕ → Option ℕ → Option Bytes
two (some a) (some b) (some c) = some ((a * 4 + b / 16) ∷ (b % 16 * 16 + c / 4) ∷ [])
two _ _ _ = none

abbrev pub three : Option ℕ → Option ℕ → Option ℕ → Option ℕ → Option Bytes → Option Bytes
three (some a) (some b) (some c) (some d) (some rest) =
    some ((a * 4 + b / 16) ∷ (b % 16 * 16 + c / 4) ∷ (c % 4 * 64 + d) ∷ rest)
three _ _ _ _ _ = none

unfoldable pub decode_chars : Alphabet → Bytes → Option Bytes
decode_chars t [] = some []
decode_chars t (a ∷ []) = none
decode_chars t (a ∷ b ∷ []) = one (value_of t a) (value_of t b)
decode_chars t (a ∷ b ∷ c ∷ []) = two (value_of t a) (value_of t b) (value_of t c)
decode_chars t (a ∷ b ∷ c ∷ d ∷ s) =
    three (value_of t a) (value_of t b) (value_of t c) (value_of t d) (decode_chars t s)

-- Four characters that end the text may have padding.
unfoldable pub decode_padded_chars : Alphabet → Bytes → Option Bytes
decode_padded_chars t [] = some []
decode_padded_chars t (a ∷ b ∷ c ∷ d ∷ []) =
    if d == b'='
    then (if c == b'='
        then one (value_of t a) (value_of t b)
        else two (value_of t a) (value_of t b) (value_of t c))
    else three (value_of t a) (value_of t b) (value_of t c) (value_of t d) (some [])
decode_padded_chars t (a ∷ b ∷ c ∷ d ∷ s) =
    three (value_of t a) (value_of t b) (value_of t c) (value_of t d) (decode_padded_chars t s)
decode_padded_chars t s = none

unfoldable pub without_newlines : Bytes → Bytes
without_newlines [] = []
without_newlines (c ∷ s) =
    let rest = without_newlines s in if c == 10 || c == 13 then rest else c ∷ rest

-- `RawURLEncoding.DecodeString`, for any alphabet, and `StdEncoding.DecodeString`.
unfoldable pub decode_raw : Alphabet → Bytes → Option Bytes
decode_raw t s = decode_chars t (without_newlines s)

unfoldable pub decode_std : Bytes → Option Bytes
decode_std s = decode_padded_chars std_alphabet (without_newlines s)
