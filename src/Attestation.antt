-- ===== src/Attestation.antt =====
-- The attestation of a response (provider/src/security.rs): its hash and its Secure Enclave signature.
pub mod Binding
mod Examples
use d_inference.Prelude.{ℕ, ◌++◌, List, [], ◌∷◌, Option, none, some, Text, decimal, ◌>>=◌}

-- SHA-256 in hexadecimal digits, from the sha2 crate, and the signing call of the Secure Enclave.
pub record Crypto : Type 0 where
  pub sha256_hex : Text → Text
  pub se_handle : Option (Text → Option Text)

unfoldable pub se_sign : Crypto → Text → Option Text
se_sign c message = do sign ← c.se_handle; sign message

-- The text that is hashed.
unfoldable pub sign_data : Text → ℕ → Text → Text
sign_data request_id completion_tokens response_body =
    request_id ++ (b':' ∷ (decimal completion_tokens ++ (b':' ∷ response_body)))

unfoldable pub compute_response_attestation : Crypto → Text → ℕ → Text → Text × Option Text
unfolding sign_data se_sign
compute_response_attestation c request_id completion_tokens response_body =
    let response_hash = c.sha256_hex (sign_data request_id completion_tokens response_body) in
    (response_hash, se_sign c response_hash)
