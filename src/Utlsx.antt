-- ===== src/Utlsx.antt =====
-- pkg/utlsx/utlsx.go: the browser that a client mimics. The profiles are those of the uTLS library.
use avangard_private.Common.{
  ◌≡◌, refl, ◌||◌, Bytes, length, equal, ◌==◌, if◌then◌else◌, codes, Result, ok, err, equal_iff,
  arith,
}

pub data ClientHelloId : Type 0 where
  hello_randomized_alpn hello_chrome_auto hello_firefox_auto hello_safari_auto hello_ios_auto :
      ClientHelloId

pub data FingerprintError : Type 0 where
  unknown_fingerprint : FingerprintError

abbrev pub fingerprint_auto : Bytes
fingerprint_auto = codes "auto"

abbrev pub fingerprint_chrome : Bytes
fingerprint_chrome = codes "chrome"

abbrev pub fingerprint_firefox : Bytes
fingerprint_firefox = codes "firefox"

abbrev pub fingerprint_safari : Bytes
fingerprint_safari = codes "safari"

abbrev pub fingerprint_ios : Bytes
fingerprint_ios = codes "ios"

abbrev pub fingerprint_yandex_browser : Bytes
fingerprint_yandex_browser = codes "yandex"

unfoldable pub resolve : Bytes → Result FingerprintError ClientHelloId
resolve fp =
    if equal fp fingerprint_auto || length fp == 0
    then ok hello_randomized_alpn
    else if equal fp fingerprint_chrome
    then ok hello_chrome_auto
    else if equal fp fingerprint_firefox
    then ok hello_firefox_auto
    else if equal fp fingerprint_safari
    then ok hello_safari_auto
    else if equal fp fingerprint_ios
    then ok hello_ios_auto
    else if equal fp fingerprint_yandex_browser
    then ok hello_chrome_auto
    else err unknown_fingerprint

unfoldable pub fingerprint_from_string : Bytes → Bytes
fingerprint_from_string s =
    if equal s fingerprint_chrome
      || equal s fingerprint_firefox
      || equal s fingerprint_safari
      || equal s fingerprint_ios
      || equal s fingerprint_yandex_browser
    then s
    else fingerprint_auto

-- The profile that is found, or the randomized one.
abbrev pub or_randomized : Result FingerprintError ClientHelloId → ClientHelloId
or_randomized (ok id) = id
or_randomized (err e) = hello_randomized_alpn

-- A name that a client was configured with is always resolved: to the profile of that name if there
-- is one, and to the randomized one otherwise.
pub resolve-fingerprint_from_string :
    (s : Bytes) → resolve (fingerprint_from_string s) ≡ ok (or_randomized (resolve s))
unfolding resolve fingerprint_from_string
resolve-fingerprint_from_string s =
    ground (arith, (equal_iff fingerprint_auto fingerprint_auto).1 refl)
