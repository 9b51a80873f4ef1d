-- ===== src/Coordinator/Challenge.antt =====
-- The answer to an attestation challenge, and the canonical status that it signs.
use d_inference.Prelude.{
  Bool, true, Option, none, some, List, [], ◌∷◌, ◌++◌, if◌then◌else◌, ◌>>=◌, unwrap_or, is_empty,
  Text, codes,
}
use d_inference.Attestation.{Crypto, se_sign}
use d_inference.Coordinator.StatusMap.{insert_all, insert}

-- What is called of the serde_json crate: values that hold a string, a Boolean or a sorted map, and the
-- bytes of a map.
pub record StatusJson (V : Type 0) : Type 0 where
  pub string : Text → V
  pub bool : Bool → V
  pub to_value : List (Text × Text) → Option V
  pub to_vec : List (Text × V) → Option Text

-- The arguments of `build_status_canonical`; a hash map is a list of its entries, in any order.
pub record Status : Type 0 where
  pub nonce : Text
  pub timestamp : Text
  pub hypervisor_active : Option Bool
  pub rdma_disabled : Option Bool
  pub sip_enabled : Option Bool
  pub secure_boot_enabled : Option Bool
  pub binary_hash : Option Text
  pub active_model_hash : Option Text
  pub python_hash : Option Text
  pub runtime_hash : Option Text
  pub template_hashes : List (Text × Text)
  pub grpc_binary_hash : Option Text
  pub model_hashes : List (Text × Text)

-- `RuntimeHashes`.
pub record RuntimeHashes : Type 0 where
  pub python_hash : Option Text
  pub runtime_hash : Option Text
  pub template_hashes : List (Text × Text)

-- What the checks of security.rs find when a challenge comes.
pub record Posture : Type 0 where
  pub sip_enabled : Bool
  pub rdma_disabled : Bool
  pub hypervisor_active : Bool
  pub binary_hash : Option Text

-- `ProviderMessage::AttestationResponse`.
pub record AttestationResponse : Type 0 where
  pub nonce : Text
  pub signature : Text
  pub status_signature : Option Text
  pub public_key : Text
  pub hypervisor_active : Option Bool
  pub rdma_disabled : Option Bool
  pub sip_enabled : Option Bool
  pub secure_boot_enabled : Option Bool
  pub binary_hash : Option Text
  pub active_model_hash : Option Text
  pub python_hash : Option Text
  pub runtime_hash : Option Text
  pub template_hashes : List (Text × Text)
  pub model_hashes : List (Text × Text)

-- Collecting the entries of a hash map into a `BTreeMap`.
unfoldable pub collect_into : List (Text × Text) → List (Text × Text) → List (Text × Text)
collect_into m [] = m
collect_into m ((k, v) ∷ entries) = collect_into (insert k v m) entries

abbrev pub collect : List (Text × Text) → List (Text × Text)
collect entries = collect_into [] entries

abbrev pub sign_status : Crypto → Option Text → Option Text
sign_status c none = none
sign_status c (some bytes) = se_sign c bytes

module _ {V : Type 0} (j : StatusJson V) where
  -- An optional text that is inserted if it is not empty.
  abbrev pub string_value : Option Text → Option V
  string_value none = none
  string_value (some v) = if is_empty v then none else some (j.string v)

  -- An optional Boolean that is inserted.
  abbrev pub bool_value : Option Bool → Option V
  bool_value none = none
  bool_value (some b) = some (j.bool b)

  -- The value of a hash map, which is left out if it is empty; `?` gives up when it cannot be made.
  abbrev pub hashes_value : List (Text × Text) → Option (Option V)
  hashes_value hashes =
      if is_empty hashes then some none else do v ← j.to_value (collect hashes); some (some v)

  -- The insertions, in their order.
  abbrev pub fields : Status → Option V → Option V → List (Text × Option V)
  fields s templates models =
      (codes "nonce", some (j.string s.nonce))
      ∷ (codes "timestamp", some (j.string s.timestamp))
      ∷ (codes "hypervisor_active", bool_value s.hypervisor_active)
      ∷ (codes "rdma_disabled", bool_value s.rdma_disabled)
      ∷ (codes "sip_enabled", bool_value s.sip_enabled)
      ∷ (codes "secure_boot_enabled", bool_value s.secure_boot_enabled)
      ∷ (codes "binary_hash", string_value s.binary_hash)
      ∷ (codes "active_model_hash", string_value s.active_model_hash)
      ∷ (codes "python_hash", string_value s.python_hash)
      ∷ (codes "runtime_hash", string_value s.runtime_hash)
      ∷ (codes "grpc_binary_hash", string_value s.grpc_binary_hash)
      ∷ (codes "template_hashes", templates)
      ∷ (codes "model_hashes", models)
      ∷ []

  unfoldable pub build_status_canonical : Status → Option Text
  build_status_canonical s = do
    templates ← hashes_value s.template_hashes
    models ← hashes_value s.model_hashes
    j.to_vec (insert_all [] (fields s templates models))

  abbrev pub of_runtime : Option RuntimeHashes → RuntimeHashes
  of_runtime none = record { python_hash = none; runtime_hash = none; template_hashes = [] }
  of_runtime (some rh) = rh

  unfoldable pub handle_attestation_challenge :
      Crypto
      → Posture
      → Text
      → Text
      → Option Text
      → Option Text
      → Option RuntimeHashes
      → List (Text × Text)
      → AttestationResponse
  unfolding build_status_canonical
  handle_attestation_challenge c posture nonce timestamp public_key current_model_hash
        runtime_hashes model_hashes =
      let rh = of_runtime runtime_hashes in
      let canonical = build_status_canonical (record {
        nonce = nonce;
        timestamp = timestamp;
        hypervisor_active = some posture.hypervisor_active;
        rdma_disabled = some posture.rdma_disabled;
        sip_enabled = some posture.sip_enabled;
        secure_boot_enabled = some true;
        binary_hash = posture.binary_hash;
        active_model_hash = current_model_hash;
        python_hash = rh.python_hash;
        runtime_hash = rh.runtime_hash;
        template_hashes = rh.template_hashes;
        grpc_binary_hash = none;
        model_hashes = model_hashes;
      }) in
      record {
        nonce = nonce;
        signature = unwrap_or (se_sign c (nonce ++ timestamp)) [];
        status_signature = sign_status c canonical;
        public_key = unwrap_or public_key [];
        hypervisor_active = some posture.hypervisor_active;
        rdma_disabled = some posture.rdma_disabled;
        sip_enabled = some posture.sip_enabled;
        secure_boot_enabled = some true;
        binary_hash = posture.binary_hash;
        active_model_hash = current_model_hash;
        python_hash = rh.python_hash;
        runtime_hash = rh.runtime_hash;
        template_hashes = rh.template_hashes;
        model_hashes = model_hashes;
      }
