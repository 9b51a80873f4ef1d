-- ===== src/Crypto.antt =====
-- End-to-end encryption with the provider's key pair (provider/src/crypto.rs).
use d_inference.Prelude.{
  IsDigit, decimal-IsDigit, decimal_injective, decimal, String, ◌≡◌, refl, sym, ap, ◌∙◌, subst, ◌≢◌,
  ◌↔◌, ◌⊎◌, inl, inr, Bool, true, false, not, ◌&&◌, ◌||◌, Option, none, some, List, [], ◌∷◌, ◌++◌,
  map, Memᴰ, append-nil, append_assoc, arith, ltb, leb, ◌==◌, if◌then◌else◌, ltb→lt, lt→ltb, leb→le,
  le→leb, ==_iff, Bool-cases, Option-cases, ◌>>=◌, ◌>>◌, unwrap_or, length, get_elem?, take, drop,
  is_empty, any, keep, count_if, All, length-append, length-take, length-drop, count_if-append,
  All-append, Memᴰ→is_empty, All-Memᴰ, All-map, Memᴰ-append, Text, codes, text_eq, text_eq_refl,
  text_eq→eq, starts_with, contains, lower_byte, to_ascii_lowercase,
}
mod RoundTrip
mod Examples

-- What is called of the crypto_box crate: the public key of a secret, and the box between a public key
-- and a secret, which seals and opens under a nonce.
pub record SalsaApi : Type 0 where
  pub public_key : Text → Text
  pub seal : (public secret nonce plaintext : Text) → Option Text
  pub unseal : (public secret nonce ciphertext : Text) → Option Text

pub record NodeKeyPair : Type 0 where
  pub secret : Text
  pub public : Text

pub data CryptoError : Type 0 where
  too_short : CryptoError
  decryption_failed : CryptoError
  encryption_failed : CryptoError

-- The secret and the nonces come from the system's random numbers.
unfoldable pub generate : SalsaApi → Text → NodeKeyPair
generate api secret = record { secret = secret; public = api.public_key secret }

abbrev pub or_failed : {A : Type 0} → CryptoError → Option A → CryptoError ⊎ A
or_failed e none = inl e
or_failed e (some x) = inr x

unfoldable pub decrypt :
    SalsaApi → NodeKeyPair → (consumer_public ciphertext : Text) → CryptoError ⊎ Text
decrypt api kp consumer_public ciphertext =
    if ltb (length ciphertext) 24
    then inl too_short
    else or_failed decryption_failed
        (api.unseal consumer_public kp.secret (take 24 ciphertext) (drop 24 ciphertext))

abbrev pub with_nonce : Text → Option Text → CryptoError ⊎ Text
with_nonce nonce none = inl encryption_failed
with_nonce nonce (some encrypted) = inr (nonce ++ encrypted)

unfoldable pub encrypt :
    SalsaApi → NodeKeyPair → (nonce consumer_public plaintext : Text) → CryptoError ⊎ Text
encrypt api kp nonce consumer_public plaintext =
    with_nonce nonce (api.seal consumer_public kp.secret nonce plaintext)
