-- ===== src/Attestation/Examples.antt =====
-- The attestation of a response at an input.
use d_inference.Prelude.{decimal, ◌≡◌, refl, some, ◌∷◌, arith, codes}
use d_inference.Attestation.{Crypto, compute_response_attestation, decimal, ℕ}
use d_inference.Attestation.Binding.{compute_response_attestation_binds}

-- A hash with no collision, for the hypothesis: the text itself.
abbrev plain : Crypto
plain = record { sha256_hex = λ s. s; se_handle = some (λ s. some (b'!' ∷ s)) }

signed :
    compute_response_attestation plain (codes "req-1") 70 (codes "hi:")
    ≡ (codes "req-1:70:hi:", some (codes "!req-1:70:hi:"))
unfolding compute_response_attestation decimal
signed = refl

compute_response_attestation_binds_example :
    (codes "req-1" ≡ codes "req-1") × (◌≡◌ {A = ℕ} 70 70) × (codes "hi:" ≡ codes "hi:")
compute_response_attestation_binds_example =
    compute_response_attestation_binds plain (codes "req-1") (codes "req-1") 70 70 (codes "hi:")
      (codes "hi:") (λ s t e. e) (omega arith) (omega arith) refl
