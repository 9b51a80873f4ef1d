-- ===== src/Protocol.antt =====
-- The messages about one inference request (provider/src/protocol.rs, `ProviderMessage`), and the
-- records in them.
use d_inference.Prelude.{Bool, Option, List, Text, ℕ}

pub record UsageInfo : Type 0 where
  pub prompt_tokens : ℕ
  pub completion_tokens : ℕ

pub record EncryptedPayload : Type 0 where
  pub ephemeral_public_key : Text
  pub ciphertext : Text

pub record ProviderStats : Type 0 where
  pub requests_served : ℕ
  pub tokens_generated : ℕ

-- The constructors of `ProviderMessage` that answer a request.
pub data InferenceMessage : Type 0 where
  inference_accepted : Text → InferenceMessage
  inference_response_chunk : Text → Text → Option EncryptedPayload → InferenceMessage
  inference_complete : Text → UsageInfo → Option Text → Option Text → InferenceMessage
  inference_error : Text → Text → ℕ → InferenceMessage

pub record RuntimeMismatch : Type 0 where
  pub component : Text
  pub expected : Text
  pub got : Text

-- `CoordinatorMessage`, over the JSON values of its bodies.
pub data CoordinatorMessage (Value : Type 0) : Type 0 where
  inference_request : Text → Value → Option EncryptedPayload → CoordinatorMessage Value
  cancel : Text → CoordinatorMessage Value
  attestation_challenge : Text → Text → CoordinatorMessage Value
  runtime_status : Bool → List RuntimeMismatch → CoordinatorMessage Value
