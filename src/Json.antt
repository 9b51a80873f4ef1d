-- ===== src/Json.antt =====
-- What the provider calls of serde_json, which is not part of the repository: the values it parses and
-- the accessors that it reads them with.
use d_inference.Prelude.{ℕ, Bool, List, Option, Text}

pub record JsonApi : Type 1 where
  pub Value : Type 0
  pub from_str : Text → Option Value
  pub to_string : Value → Text
  pub get : Value → Text → Option Value
  pub as_bool : Value → Option Bool
  pub as_u64 : Value → Option ℕ
  pub as_str : Value → Option Text
  pub as_array : Value → Option (List Value)
