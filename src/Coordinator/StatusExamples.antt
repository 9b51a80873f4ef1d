-- ===== src/Coordinator/StatusExamples.antt =====
-- A concrete encoding of statuses, with lengths before texts, and an answer that is checked with it.
use d_inference.Prelude.{
  ◌≡◌, refl, sym, ◌∙◌, Bool, true, false, none, some, List, [], ◌∷◌, ◌++◌, arith, if◌then◌else◌,
  unwrap_or, length, Text, codes, text_eq, text_eq_refl, text_eq→eq, ℕ, some_inj,
}
use d_inference.Attestation.{Crypto, se_sign}
use d_inference.Coordinator.StatusMap.{insert, text_lt}
use d_inference.Coordinator.Challenge.{
  StatusJson, RuntimeHashes, Posture, AttestationResponse, collect_into, build_status_canonical,
  handle_attestation_challenge,
}
use d_inference.Coordinator.Status.{IsInjective, Agree, build_status_canonical-Agree}
use d_inference.Coordinator.Answers.{status_of, handle_attestation_challenge-Agree}

unfoldable encode : List (Text × Text) → Text
encode [] = []
encode ((k, v) ∷ m) = length k ∷ (k ++ length v ∷ (v ++ encode m))

-- Texts of one length that begin equal texts are equal.
same_prefix : (s t u v : Text) → length s ≡ length t → s ++ u ≡ t ++ v → (s ≡ t) × (u ≡ v)
same_prefix [] [] u v l h = (refl, h)
same_prefix [] (b ∷ t) u v l h = absurd (omega (arith, l))
same_prefix (a ∷ s) [] u v l h = absurd (omega (arith, l))
same_prefix (a ∷ s) (b ∷ t) u v l h =
    let (tails, rest) = same_prefix s t u v (omega (arith, l)) cc in (cc, rest)

cons_inj : (a b : ℕ) (s t : Text) → a ∷ s ≡ b ∷ t → (a ≡ b) × (s ≡ t)
cons_inj a b s t h = (cc, cc)

encode_inj : (m n : List (Text × Text)) → encode m ≡ encode n → m ≡ n
unfolding encode
encode_inj [] [] h = refl
encode_inj [] ((k, v) ∷ n) h = absurd (ground arith)
encode_inj ((k, v) ∷ m) [] h = absurd (ground arith)
encode_inj ((k, v) ∷ m) ((i, w) ∷ n) h =
    let (key_lengths, keys_on) = cons_inj _ _ _ _ h in
    let (keys, after_keys) = same_prefix k i _ _ key_lengths keys_on in
    let (value_lengths, values_on) = cons_inj _ _ _ _ after_keys in
    let (values, after_values) = same_prefix v w _ _ value_lengths values_on in
    let rest = encode_inj m n after_values in cc

abbrev plain_json : StatusJson Text
plain_json = record {
  string = λ t. 0 ∷ t;
  bool = λ b. if b then 1 ∷ [] else 2 ∷ [];
  to_value = λ m. some (encode m);
  to_vec = λ m. some (encode m);
}

flag_inj : (a b : Bool) → plain_json.bool a ≡ plain_json.bool b → a ≡ b
flag_inj true true h = refl
flag_inj true false h = absurd (ground arith)
flag_inj false true h = absurd (ground arith)
flag_inj false false h = refl

plain_json-IsInjective : IsInjective plain_json
plain_json-IsInjective = record {
  string_inj = λ s t h. cc;
  bool_inj = flag_inj;
  to_value_inj = λ m n v hm hn. encode_inj m n (some_inj (hm ∙ sym hn));
  to_vec_inj = λ m n b hm hn. encode_inj m n (some_inj (hm ∙ sym hn));
}

-- The text is its own signature.
abbrev plain_crypto : Crypto
plain_crypto = record { sha256_hex = λ s. s; se_handle = some (λ s. some s) }

plain_sound :
    (signed checked sig : Text)
    → se_sign plain_crypto signed ≡ some sig
    → text_eq checked sig ≡ true
    → signed ≡ checked
unfolding se_sign
plain_sound signed checked sig h v = some_inj h ∙ sym (text_eq→eq checked sig v)

abbrev posture : Posture
posture = record {
  sip_enabled = true;
  rdma_disabled = false;
  hypervisor_active = false;
  binary_hash = some (codes "ab");
}

abbrev hashes : RuntimeHashes
hashes = record {
  python_hash = none;
  runtime_hash = some (codes "cd");
  template_hashes = (codes "t", codes "1") ∷ (codes "s", codes "2") ∷ [];
}

-- The same status with the entries of its hash map in another order, and an empty hash for none.
abbrev reported : AttestationResponse
reported = record {
  nonce = codes "n";
  signature = [];
  status_signature = none;
  public_key = [];
  hypervisor_active = some false;
  rdma_disabled = some false;
  sip_enabled = some true;
  secure_boot_enabled = some true;
  binary_hash = some (codes "ab");
  active_model_hash = none;
  python_hash = some [];
  runtime_hash = some (codes "cd");
  template_hashes = (codes "s", codes "2") ∷ (codes "t", codes "1") ∷ [];
  model_hashes = [];
}

abbrev answer : AttestationResponse
answer =
    handle_attestation_challenge plain_json plain_crypto posture (codes "n") (codes "9") none none
      (some hashes) []

abbrev bytes : Text
bytes = unwrap_or (build_status_canonical plain_json (status_of (codes "9") reported)) []

answer_canonical : build_status_canonical plain_json (status_of (codes "9") answer) ≡ some bytes
unfolding build_status_canonical status_of collect_into insert text_lt handle_attestation_challenge
answer_canonical = refl

reported_canonical : build_status_canonical plain_json (status_of (codes "9") reported) ≡ some bytes
unfolding build_status_canonical status_of collect_into insert text_lt
reported_canonical = refl

answer_signed : answer.status_signature ≡ some bytes
unfolding build_status_canonical status_of collect_into insert text_lt handle_attestation_challenge
    se_sign
answer_signed = refl

build_status_canonical-Agree_example :
    Agree (status_of (codes "9") answer) (status_of (codes "9") reported)
build_status_canonical-Agree_example =
    build_status_canonical-Agree plain_json plain_json-IsInjective (status_of (codes "9") answer)
      (status_of (codes "9") reported) bytes answer_canonical reported_canonical

handle_attestation_challenge-Agree_example :
    Agree (status_of (codes "9") answer) (status_of (codes "9") reported)
handle_attestation_challenge-Agree_example =
    handle_attestation_challenge-Agree plain_json plain_json-IsInjective plain_crypto posture
      text_eq plain_sound (codes "n") (codes "9") none none (some hashes) [] bytes reported
      (codes "9") bytes answer_signed reported_canonical (text_eq_refl bytes)
