-- ===== src/Backend/Probe.antt =====
-- The probes of a backend: `check_health`, `check_model_loaded`, `warmup_backend`.
use d_inference.Prelude.{
  ◌≡◌, inl, inr, Bool, true, false, ◌&&◌, Option, none, some, List, [], ◌∷◌, ◌++◌, arith, ltb, leb,
  if◌then◌else◌, Bool-cases, Option-cases, ◌>>=◌, unwrap_or, get_elem?, Text, codes, ℕ,
}
use d_inference.Json.{JsonApi}

-- An answer to a GET: the status, and the body if it is JSON. A request that fails has none.
abbrev pub Answers : Type 0 → Type 0
Answers Value = Text → Option (ℕ × Option Value)

abbrev pub is_success : ℕ → Bool
is_success status = leb 200 status && ltb status 300

abbrev pub answers_well {ℓ} : {V : Type ℓ} → Option (ℕ × Option V) → Bool
answers_well none = false
answers_well (some (status, body)) = is_success status

module _ (json : JsonApi) (send : Answers (JsonApi.Value json)) where
  open json use {Value, get, as_bool, as_str, as_array}

  -- `for path in [..]`, with an early return.
  unfoldable pub first_success : Text → List Text → Bool
  first_success base_url [] = false
  first_success base_url (path ∷ paths) =
      if answers_well (send (base_url ++ path)) then true else first_success base_url paths

  unfoldable pub check_health : Text → Bool
  unfolding first_success
  check_health base_url = first_success base_url (codes "/health" ∷ codes "/v1/models" ∷ [])

  -- An explicit `model_loaded` of a successful answer; `none` falls through.
  unfoldable pub explicit_loaded : Option (ℕ × Option Value) → Option Bool
  explicit_loaded none = none
  explicit_loaded (some (status, body)) =
      if is_success status then (do b ← body; v ← get b (codes "model_loaded"); as_bool v) else none

  unfoldable pub check_model_loaded : Text → Bool
  unfolding explicit_loaded
  check_model_loaded base_url = elim (explicit_loaded (send (base_url ++ codes "/health"))) [
    | some loaded ↦ loaded
    | none ↦ answers_well (send (base_url ++ codes "/v1/models"))
  ]

  -- The model's name for the warm-up request.
  unfoldable pub first_model_id : Option Value → Option Text
  first_model_id body = do
    v ← body
    d ← get v (codes "data")
    models ← as_array d
    m ← get_elem? models 0
    id ← get m (codes "id")
    as_str id

  unfoldable pub warmup_model : Option (ℕ × Option Value) → Text
  unfolding first_model_id
  warmup_model none = codes "default"
  warmup_model (some (status, body)) =
      if is_success status
      then unwrap_or (first_model_id body) (codes "default")
      else codes "default"

  -- `post` answers a chat completion of one token for a model, with the status if there is one.
  unfoldable pub warmup_backend : (Text → Text → Option ℕ) → Text → Bool
  unfolding warmup_model
  warmup_backend post base_url =
      elim (post (base_url ++ codes "/v1/chat/completions")
        (warmup_model (send (base_url ++ codes "/v1/models")))) [
          | none ↦ false
          | some status ↦ is_success status
        ]

  explicit_loaded_success :
      (r : Option (ℕ × Option Value)) {b : Bool}
      → explicit_loaded r ≡ some b
      → answers_well r ≡ true
  unfolding explicit_loaded
  explicit_loaded_success none h = cc
  explicit_loaded_success (some (status, body)) h = elim (Bool-cases (is_success status)) [
    | inl y ↦ y
    | inr n ↦ absurd (ground arith)
  ]

  -- On the same answers of the backend, a backend that counts as loaded counts as healthy too.
  pub check_model_loaded-check_health :
      (base_url : Text) → check_model_loaded base_url ≡ true → check_health base_url ≡ true
  unfolding check_model_loaded check_health
  check_model_loaded-check_health base_url h =
      elim (Option-cases (explicit_loaded (send (base_url ++ codes "/health")))) [
        | inl n ↦ ground arith
        | inr (b, e) ↦
            ground (arith, explicit_loaded_success (send (base_url ++ codes "/health")) e)
      ]
