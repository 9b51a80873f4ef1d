-- ===== src/Coordinator/Decrypt.antt =====
-- `decrypt_request_body`: a request body that was encrypted to the provider.
use d_inference.Prelude.{
  ◌≡◌, refl, ap, ◌∙◌, subst, inl, inr, not, Option, none, some, arith, ◌==◌, if◌then◌else◌, ==_iff,
  Bool-cases, length, Text, ℕ,
}
use d_inference.Protocol.{EncryptedPayload}

-- What is called of the base64, crypto_box and serde_json crates, with the provider's key pair inside
-- `decrypt`.
pub record Opening (Value : Type 0) : Type 0 where
  pub base64_decode : Text → Option Text
  pub decrypt : Text → Text → Option Text
  pub from_slice : Text → Option Value

pub data DecryptError : Type 0 where
  invalid_ephemeral_key : DecryptError
  invalid_key_length : ℕ → DecryptError
  invalid_ciphertext : DecryptError
  decryption_failed : DecryptError
  not_json : DecryptError

pub data Decrypted (Value : Type 0) : Type 0 where
  opened : Value → Text → Decrypted Value
  rejected : DecryptError → Decrypted Value

module _ {Value : Type 0} (o : Opening Value) where
  abbrev parse_body : Text → Option Value → Decrypted Value
  parse_body key none = rejected not_json
  parse_body key (some body) = opened body key

  abbrev open_cipher : Text → Option Text → Decrypted Value
  open_cipher key none = rejected decryption_failed
  open_cipher key (some plaintext) = parse_body key (o.from_slice plaintext)

  abbrev with_cipher : Text → Option Text → Decrypted Value
  with_cipher key none = rejected invalid_ciphertext
  with_cipher key (some ciphertext) = open_cipher key (o.decrypt key ciphertext)

  abbrev with_key : Option Text → Text → Decrypted Value
  with_key none ciphertext = rejected invalid_ephemeral_key
  with_key (some key) ciphertext =
      if not (length key == 32)
      then rejected (invalid_key_length (length key))
      else with_cipher key (o.base64_decode ciphertext)

  -- The body and the ephemeral public key, to which the response is encrypted.
  unfoldable pub decrypt_request_body : EncryptedPayload → Decrypted Value
  decrypt_request_body enc = with_key (o.base64_decode enc.ephemeral_public_key) enc.ciphertext

  -- The body was decrypted from the payload's ciphertext under a key of 32 bytes, the
  -- payload's.
  pub record IsOpened (enc : EncryptedPayload) (body : Value) (key : Text) : Type 0 where
    pub decoded_key : o.base64_decode enc.ephemeral_public_key ≡ some key
    pub key_length : length key ≡ 32
    pub plaintext :
        (cipher : Text) × (plain : Text) × (o.base64_decode enc.ciphertext ≡ some cipher)
        × (o.decrypt key cipher ≡ some plain)
        × (o.from_slice plain ≡ some body)

  parse_body_inverts :
      (k : Text) (b : Option Value) (body : Value) (key : Text)
      → parse_body k b ≡ opened body key
      → (b ≡ some body) × (k ≡ key)
  parse_body_inverts k none body key h = absurd (ground arith)
  parse_body_inverts k (some b) body key h = ground arith

  open_cipher_inverts :
      (k : Text) (p : Option Text) (body : Value) (key : Text)
      → open_cipher k p ≡ opened body key
      → (plain : Text) × (p ≡ some plain) × (o.from_slice plain ≡ some body) × (k ≡ key)
  open_cipher_inverts k none body key h = absurd (ground arith)
  open_cipher_inverts k (some plain) body key h =
      let (parsed, same) = parse_body_inverts k (o.from_slice plain) body key h in
      (plain, refl, parsed, same)

  with_cipher_inverts :
      (k : Text) (c : Option Text) (body : Value) (key : Text)
      → with_cipher k c ≡ opened body key
      → (cipher : Text) × (plain : Text) × (c ≡ some cipher)
        × (o.decrypt k cipher ≡ some plain)
        × (o.from_slice plain ≡ some body)
        × (k ≡ key)
  with_cipher_inverts k none body key h = absurd (ground arith)
  with_cipher_inverts k (some cipher) body key h =
      let (plain, decrypted, parsed, same) =
        open_cipher_inverts k (o.decrypt k cipher) body key h in
      (cipher, plain, refl, decrypted, parsed, same)

  with_key_inverts :
      (d : Option Text) (ciphertext : Text) (body : Value) (key : Text)
      → with_key d ciphertext ≡ opened body key
      → (k : Text) × (d ≡ some k)
        × (length k ≡ 32)
        × (with_cipher k (o.base64_decode ciphertext) ≡ opened body key)
  with_key_inverts none ciphertext body key h = absurd (ground arith)
  with_key_inverts (some k) ciphertext body key h = elim (Bool-cases (length k == 32)) [
    | inl y ↦ (k, refl, (==_iff _ _).0 y, ground arith)
    | inr n ↦ absurd (ground arith)
  ]

  -- A body is handed on only if it was opened: its text was decrypted from the payload's ciphertext under
  -- the payload's key, which has 32 bytes and is handed on with it.
  pub decrypt_request_body-IsOpened :
      (enc : EncryptedPayload) (body : Value) (key : Text)
      → decrypt_request_body enc ≡ opened body key
      → IsOpened enc body key
  unfolding decrypt_request_body
  decrypt_request_body-IsOpened enc body key h =
      let (k, decoded, len, rest) =
        with_key_inverts (o.base64_decode enc.ephemeral_public_key) enc.ciphertext body key h in
      let (cipher, plain, c, d, p, same) =
        with_cipher_inverts k (o.base64_decode enc.ciphertext) body key rest in
      record {
        decoded_key = decoded ∙ ap (λ (t : Text). some t) same;
        key_length = subst (λ (t : Text). length t ≡ 32) same len;
        plaintext =
            (cipher, plain, c, subst (λ (t : Text). o.decrypt t cipher ≡ some plain) same d, p);
      }
