-- ===== src/Crypto/Examples.antt =====
-- A toy box: a key is its own public key, and sealing puts the sum of the keys in front.
use d_inference.Prelude.{
  ◌≡◌, sym, ap, ◌∙◌, ◌↔◌, inl, inr, Option, none, some, [], ◌∷◌, ◌++◌, arith, ◌==◌, if◌then◌else◌,
  ==_iff, Bool-cases, length, Text, codes, ℕ, ◌+◌,
}
use d_inference.Crypto.{SalsaApi, generate, decrypt, encrypt}
use d_inference.Crypto.RoundTrip.{IsBox, decrypt-encrypt}

abbrev pair_key : Text → Text → ℕ
pair_key s t = length s + length t

abbrev unseal_toy : Text → Text → Text → Text → Option Text
unseal_toy public secret nonce [] = none
unseal_toy public secret nonce (c ∷ t) = if pair_key public secret == c then some t else none

abbrev toy : SalsaApi
toy = record {
  public_key = λ s. s;
  seal = λ public secret nonce plaintext. some (pair_key public secret ∷ plaintext);
  unseal = unseal_toy;
}

heads :
    (x c : ℕ) (p t : Text) → Path (Option Text) (some (x ∷ p)) (some (c ∷ t)) → (x ≡ c) × (p ≡ t)
heads x c p t e = (ground (arith, e), ground (arith, e))

matches :
    (x c : ℕ) (p t : Text)
    → x ≡ c
    → (Path (Option Text) (some (x ∷ p)) (some (c ∷ t))) ↔ (Path (Option Text) (some t) (some p))
matches x c p t same = (
  λ e. ap some (sym (heads x c p t e).1),
  λ e.
      ap (λ (s : Text). some s)
        (ap (λ (y : ℕ). y ∷ p) same ∙ ap (λ (s : Text). c ∷ s) (sym (ground (arith, e)))),
)

toy-IsBox : IsBox toy
toy-IsBox a b nonce plaintext [] =
    (λ e. absurd (ground (arith, e)), λ e. absurd (ground (arith, e)))
toy-IsBox a b nonce plaintext (c ∷ t) = elim (Bool-cases (pair_key a b == c)) [
  | inl y ↦
      rw y (matches (pair_key b a) c plaintext t (omega (arith, (==_iff (pair_key a b) c).0 y)))
  | inr n ↦ rw n (
    λ e. absurd (
        ground (
          arith,
          n,
          (==_iff (pair_key a b) c).1 (omega (arith, (heads (pair_key b a) c plaintext t e).0)),
        )),
    λ e. absurd (ground (arith, e)),
  )
]

abbrev nonce : Text
nonce = codes "abcdefghijklmnopqrstuvwx"

decrypt-encrypt_example :
    (decrypt toy (generate toy (codes "key")) (codes "other") (nonce ++ 8 ∷ codes "hi")
      ≡ inr (codes "hi"))
    ↔ ((n : Text) × (length n ≡ 24)
        × (encrypt toy (generate toy (codes "other")) n (codes "key") (codes "hi")
            ≡ inr (nonce ++ 8 ∷ codes "hi")))
decrypt-encrypt_example =
    decrypt-encrypt toy toy-IsBox (codes "other") (codes "key") (codes "hi")
      (nonce ++ 8 ∷ codes "hi")
