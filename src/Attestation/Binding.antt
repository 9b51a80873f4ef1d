-- ===== src/Attestation/Binding.antt =====
-- Responses and their hashes.
use d_inference.Prelude.{
  IsDigit, decimal-IsDigit, decimal_injective, decimal, ◌≡◌, ◌≢◌, [], ◌∷◌, ◌++◌, arith, All,
  All-map, Text,
}
use d_inference.Attestation.{Crypto, compute_response_attestation, decimal, ℕ}

abbrev pub Lacks : ℕ → Text → Type 0
Lacks b = All (λ c. c ≢ b)

-- A text is cut at the first separator.
cut_first :
    (b : ℕ) (xs ys r s : Text)
    → Lacks b xs
    → Lacks b ys
    → xs ++ (b ∷ r) ≡ ys ++ (b ∷ s)
    → (xs ≡ ys) × (r ≡ s)
cut_first b [] [] r s hx hy e = ground arith
cut_first b [] (y ∷ ys) r s hx (hy, hys) e = absurd (ground arith)
cut_first b (x ∷ xs) [] r s (hx, hxs) hy e = absurd (ground arith)
cut_first b (x ∷ xs) (y ∷ ys) r s (hx, hxs) (hy, hys) e = ground (arith, cut_first b xs ys r s)

decimal-Lacks : (n : ℕ) → Lacks b':' (decimal n)
decimal-Lacks n =
    All-map IsDigit (λ c. c ≢ b':') (λ c h. omega arith) (decimal n) (decimal-IsDigit n)

-- Responses with the same hash are the same: if SHA-256 has no collision, and no request id holds a
-- colon, then equal hashes belong to one request, one number of tokens and one response text.
pub compute_response_attestation_binds :
    (c : Crypto) (id id' : Text) (tokens tokens' : ℕ) (body body' : Text)
    → ((s t : Text) → c.sha256_hex s ≡ c.sha256_hex t → s ≡ t)
    → Lacks b':' id
    → Lacks b':' id'
    → (compute_response_attestation c id tokens body).0
      ≡ (compute_response_attestation c id' tokens' body').0
    → (id ≡ id') × (tokens ≡ tokens') × (body ≡ body')
unfolding compute_response_attestation
compute_response_attestation_binds c id id' tokens tokens' body body' injective h h' e =
    let (same_id, rest) = cut_first b':' id id' _ _ h h' (injective _ _ e) in
    let (same_tokens, same_body) =
      cut_first b':' (decimal tokens) (decimal tokens') _ _ (decimal-Lacks tokens)
        (decimal-Lacks tokens') rest in
    (same_id, decimal_injective tokens tokens' same_tokens, same_body)
