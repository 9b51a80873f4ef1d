-- ===== src/Coordinator/Answers.antt =====
-- Answers to challenges and the signatures of their statuses.
use d_inference.Prelude.{
  ◌≡◌, refl, sym, ap, ◌∙◌, Bool, true, Option, none, some, List, Text, some_of_none,
}
use d_inference.Attestation.{Crypto, se_sign}
use d_inference.Coordinator.Challenge.{
  StatusJson, Status, RuntimeHashes, Posture, AttestationResponse, sign_status,
  build_status_canonical, handle_attestation_challenge,
}
use d_inference.Coordinator.Status.{IsInjective, Agree, build_status_canonical-Agree}

-- The status that the coordinator rebuilds from an answer and the timestamp it sent.
unfoldable pub status_of : Text → AttestationResponse → Status
status_of timestamp r = record {
  nonce = r.nonce;
  timestamp = timestamp;
  hypervisor_active = r.hypervisor_active;
  rdma_disabled = r.rdma_disabled;
  sip_enabled = r.sip_enabled;
  secure_boot_enabled = r.secure_boot_enabled;
  binary_hash = r.binary_hash;
  active_model_hash = r.active_model_hash;
  python_hash = r.python_hash;
  runtime_hash = r.runtime_hash;
  template_hashes = r.template_hashes;
  grpc_binary_hash = none;
  model_hashes = r.model_hashes;
}

sign_status_inverts :
    (c : Crypto) (o : Option Text) (sig : Text)
    → sign_status c o ≡ some sig
    → (bytes : Text) × (o ≡ some bytes) × (se_sign c bytes ≡ some sig)
sign_status_inverts c none sig h = some_of_none (sym h)
sign_status_inverts c (some bytes) sig h = (bytes, refl, h)

-- An answer to a challenge cannot be altered: if its status signature also verifies for the status that
-- another answer reports, at any timestamp, then the two report the same nonce, timestamp and status.
-- The signature scheme verifies a signature only for the text that was signed, and JSON maps and values
-- are determined by their texts and contents.
pub handle_attestation_challenge-Agree :
    {V : Type 0} (j : StatusJson V) (inj : IsInjective j) (c : Crypto) (posture : Posture)
    (verify : Text → Text → Bool)
    → ((signed checked sig : Text)
        → se_sign c signed ≡ some sig
        → verify checked sig ≡ true
        → signed ≡ checked)
    → (nonce timestamp : Text) (public_key model_hash : Option Text)
      (runtime : Option RuntimeHashes) (model_hashes : List (Text × Text)) (sig : Text)
      (other : AttestationResponse) (other_timestamp bytes : Text)
    → (handle_attestation_challenge j c posture nonce timestamp public_key model_hash runtime
        model_hashes).status_signature
      ≡ some sig
    → build_status_canonical j (status_of other_timestamp other) ≡ some bytes
    → verify bytes sig ≡ true
    → Agree
        (status_of timestamp (
          handle_attestation_challenge j c posture nonce timestamp public_key model_hash runtime
            model_hashes))
        (status_of other_timestamp other)
unfolding handle_attestation_challenge status_of
handle_attestation_challenge-Agree j inj c posture verify sound nonce timestamp public_key
      model_hash runtime model_hashes sig other other_timestamp bytes signed canonical verified =
    let (own, made, own_signed) = sign_status_inverts c _ sig signed in
    build_status_canonical-Agree j inj _ _ bytes
      (made ∙ ap (λ (x : Text). some x) (sound own bytes sig own_signed verified)) canonical
