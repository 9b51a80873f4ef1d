-- ===== src/Crypto/RoundTrip.antt =====
-- What one side encrypts and the other decrypts.
use d_inference.Prelude.{
  ◌≡◌, refl, sym, ap, ◌∙◌, ◌↔◌, ◌⊎◌, inl, inr, Bool, true, false, Option, none, some, [], ◌∷◌, ◌++◌,
  arith, ltb, if◌then◌else◌, length, take, drop, length-append, length-take, Text, ℕ, suc, zero,
  ◌≤◌,
}
use d_inference.Crypto.{
  SalsaApi, CryptoError, too_short, decryption_failed, generate, or_failed, decrypt, with_nonce,
  encrypt,
}

-- A box is the same from both sides, and opens what was sealed with it and nothing else.
abbrev pub IsBox : SalsaApi → Type 0
IsBox api =
    (a b nonce plaintext ciphertext : Text)
    → (api.seal (api.public_key b) a nonce plaintext ≡ some ciphertext)
      ↔ (api.unseal (api.public_key a) b nonce ciphertext ≡ some plaintext)

take-append_all : (n : ℕ) (xs ys : Text) → length xs ≡ n → take n (xs ++ ys) ≡ xs
take-append_all zero [] ys h = refl
take-append_all zero (x ∷ xs) ys h = absurd (omega (arith, h))
take-append_all (suc n) [] ys h = absurd (omega (arith, h))
take-append_all (suc n) (x ∷ xs) ys h =
    ap (λ (zs : Text). x ∷ zs) (take-append_all n xs ys (omega (arith, h)))

drop-append_all : (n : ℕ) (xs ys : Text) → length xs ≡ n → drop n (xs ++ ys) ≡ ys
drop-append_all zero [] ys h = refl
drop-append_all zero (x ∷ xs) ys h = absurd (omega (arith, h))
drop-append_all (suc n) [] ys h = absurd (omega (arith, h))
drop-append_all (suc n) (x ∷ xs) ys h = drop-append_all n xs ys (omega (arith, h))

take-drop : (n : ℕ) (xs : Text) → take n xs ++ drop n xs ≡ xs
take-drop zero xs = refl
take-drop (suc n) [] = refl
take-drop (suc n) (x ∷ xs) = ap (λ (zs : Text). x ∷ zs) (take-drop n xs)

or_failed-inr :
    (e : CryptoError) (o : Option Text) (t : Text) → (or_failed e o ≡ inr t) ↔ (o ≡ some t)
or_failed-inr e none t = (λ h. absurd (ground (arith, h)), λ h. absurd (ground (arith, h)))
or_failed-inr e (some s) t = (λ h. ground (arith, h), λ h. ground (arith, h))

module _ (api : SalsaApi) (box : IsBox api) where
  decrypted :
      (a b plaintext ciphertext nonce rest : Text)
      → length nonce ≡ 24
      → api.seal (api.public_key b) a nonce plaintext ≡ some rest
      → ciphertext ≡ nonce ++ rest
      → decrypt api (generate api b) (api.public_key a) ciphertext ≡ inr plaintext
  unfolding decrypt generate
  decrypted a b plaintext ciphertext nonce rest h sealed is =
      ap
        (λ (c : Bool).
          if c
          then inl too_short
          else or_failed decryption_failed
              (api.unseal (api.public_key a) b (take 24 ciphertext) (drop 24 ciphertext)))
        long
      ∙ ap (or_failed decryption_failed) (
          ap (λ (n : Text). api.unseal (api.public_key a) b n (drop 24 ciphertext))
            (ap (take 24) is ∙ take-append_all 24 nonce rest h)
          ∙ ap (api.unseal (api.public_key a) b nonce)
              (ap (drop 24) is ∙ drop-append_all 24 nonce rest h)
          ∙ (box a b nonce plaintext rest).0 sealed)
    where
      long : ltb (length ciphertext) 24 ≡ false
      long = ground (arith, h, ap (λ (t : Text). length t) is, length-append nonce rest)

  opened :
      (a b plaintext ciphertext : Text)
      → decrypt api (generate api b) (api.public_key a) ciphertext ≡ inr plaintext
      → (24 ≤ length ciphertext)
        × (api.unseal (api.public_key a) b (take 24 ciphertext) (drop 24 ciphertext)
            ≡ some plaintext)
  unfolding decrypt generate
  opened a b plaintext ciphertext h = go (ltb (length ciphertext) 24) refl h
    where
      go :
          (c : Bool)
          → ltb (length ciphertext) 24 ≡ c
          → (if c
              then inl too_short
              else or_failed decryption_failed
                  (api.unseal (api.public_key a) b (take 24 ciphertext) (drop 24 ciphertext)))
            ≡ inr plaintext
          → (24 ≤ length ciphertext)
            × (api.unseal (api.public_key a) b (take 24 ciphertext) (drop 24 ciphertext)
                ≡ some plaintext)
      go true e q = absurd (ground (arith, q))
      go false e q = (ground (arith, e), (or_failed-inr decryption_failed _ plaintext).0 q)

  -- One side decrypts a ciphertext to a plaintext exactly if the other side encrypts that plaintext to
  -- that ciphertext under some nonce of 24 bytes: what is encrypted is read back, and nothing else is
  -- accepted. The box of the two keys is the same from both sides, and opens exactly what it seals.
  pub decrypt-encrypt :
      (a b plaintext ciphertext : Text)
      → (decrypt api (generate api b) (api.public_key a) ciphertext ≡ inr plaintext) ↔ (
          (nonce : Text) × (length nonce ≡ 24)
          × (encrypt api (generate api a) nonce (api.public_key b) plaintext ≡ inr ciphertext))
  unfolding encrypt generate
  decrypt-encrypt a b plaintext ciphertext = (forth, λ (nonce, h, e). back nonce h e _ refl)
    where
      forth :
          decrypt api (generate api b) (api.public_key a) ciphertext ≡ inr plaintext
          → (nonce : Text) × (length nonce ≡ 24)
            × (with_nonce nonce (api.seal (api.public_key b) a nonce plaintext) ≡ inr ciphertext)
      forth h =
          let (long, e) = opened a b plaintext ciphertext h in
          (
            take 24 ciphertext,
            omega (arith, long, length-take 24 ciphertext),
            ap (with_nonce (take 24 ciphertext))
                  ((box a b (take 24 ciphertext) plaintext (drop 24 ciphertext)).1 e)
                ∙ ap inr (take-drop 24 ciphertext),
          )

      back :
          (nonce : Text)
          → length nonce ≡ 24
          → with_nonce nonce (api.seal (api.public_key b) a nonce plaintext) ≡ inr ciphertext
          → (o : Option Text) → api.seal (api.public_key b) a nonce plaintext ≡ o
          → decrypt api (generate api b) (api.public_key a) ciphertext ≡ inr plaintext
      back nonce h e none q = absurd (ground (arith, sym (ap (with_nonce nonce) q) ∙ e))
      back nonce h e (some rest) q =
          decrypted a b plaintext ciphertext nonce rest h q
            (sym (inr_lem (nonce ++ rest) ciphertext (sym (ap (with_nonce nonce) q) ∙ e)))
        where
          inr_lem : (s t : Text) → Path (CryptoError ⊎ Text) (inr s) (inr t) → s ≡ t
          inr_lem s t r = ground (arith, r)
