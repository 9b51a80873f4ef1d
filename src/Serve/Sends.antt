-- ===== src/Serve/Sends.antt =====
-- The sends of a request on the embedded engine, and what they may leave in the channel.
use d_inference.Prelude.{
  ◌≡◌, refl, ◌≢◌, ◌⊎◌, inl, inr, Bool, true, false, Option, none, some, List, [], ◌∷◌, ◌++◌, arith,
  All, Text, ℕ, suc, zero,
}
use d_inference.Protocol.{
  InferenceMessage, inference_accepted, inference_response_chunk, inference_complete,
  inference_error, ProviderStats, EncryptedPayload,
}
use d_inference.Proxy.Messages.{charge}
use d_inference.Proxy.Terminal.{IsTerminal}
use d_inference.Serve.Inprocess.{Outbox, send, send_when, InprocessEnv}

-- The payload is what the encryption made of some text under the request's response key, with one of
-- its nonces and beside the provider's public key.
pub record HoldsCiphertext (env : InprocessEnv) (payload : EncryptedPayload) : Type 0 where
  pub draw : ℕ
  pub plaintext : Text
  pub encrypted : Text
  pub made : env.sealing.encrypt draw env.response_public_key plaintext ≡ some encrypted
  pub carried : payload.ciphertext ≡ env.sealing.encode encrypted
  pub keyed : payload.ephemeral_public_key ≡ env.sealing.public_key_base64

-- A chunk of the request that holds no plaintext, and some text's encryption.
abbrev pub IsSealed : InprocessEnv → InferenceMessage → Type 0
IsSealed env (inference_response_chunk i d none) = ⊥
IsSealed env (inference_response_chunk i d (some payload)) =
    (i ≡ env.request_id) × (d ≡ []) × HoldsCiphertext env payload
IsSealed env (inference_accepted i) = ⊥
IsSealed env (inference_complete i u g h) = ⊥
IsSealed env (inference_error i e c) = ⊥

-- Encrypted chunks of the request, and then one completion or error of it.
abbrev pub EndsSealed : InprocessEnv → List InferenceMessage → Type 0
EndsSealed env ms =
    (chunks : List InferenceMessage) × (end : InferenceMessage) × (ms ≡ chunks ++ end ∷ [])
    × All (IsSealed env) chunks
    × IsTerminal env.request_id end

-- The request has ended and was charged for; or the receiver was dropped before, and had taken
-- encrypted chunks only.
abbrev pub IsAnswered :
    InprocessEnv → Option ℕ → Option ProviderStats → Outbox × Option ProviderStats → Type 0
IsAnswered env takes old (out, stats) =
    (EndsSealed env out.sent × (stats ≡ charge out.sent old))
    ⊎ ((takes ≢ none) × All (IsSealed env) out.sent)

pub charge-sealed :
    (env : InprocessEnv) (ms : List InferenceMessage) (old : Option ProviderStats)
    → All (IsSealed env) ms
    → charge ms old ≡ old
unfolding charge
charge-sealed env [] old h = refl
charge-sealed env (inference_response_chunk i d none ∷ ms) old (no', h) = elim no' [ ]
charge-sealed env (inference_response_chunk i d (some p) ∷ ms) old (is_sealed, h) =
    charge-sealed env ms old h
charge-sealed env (inference_accepted i ∷ ms) old (no', h) = elim no' [ ]
charge-sealed env (inference_complete i u g c ∷ ms) old (no', h) = elim no' [ ]
charge-sealed env (inference_error i e c ∷ ms) old (no', h) = elim no' [ ]

-- A send either takes the message, or finds the receiver gone.
abbrev pub Sends : InferenceMessage → Outbox → Outbox × Bool → Type 0
Sends m out r =
    ((r.1 ≡ true) × (r.0.sent ≡ out.sent ++ m ∷ []) × (out.takes ≡ none → r.0.takes ≡ none))
    ⊎ ((r.1 ≡ false) × (r.0 ≡ out) × (out.takes ≢ none))

pub send_when-Sends :
    (takes : Option ℕ) (m : InferenceMessage) (sent : List InferenceMessage)
    → Sends m (record { sent = sent; takes = takes }) (send_when takes m sent)
send_when-Sends none m sent = inl (refl, refl, λ e. refl)
send_when-Sends (some zero) m sent = inr (refl, refl, λ e. absurd (ground arith))
send_when-Sends (some (suc n)) m sent = inl (refl, refl, λ e. absurd (ground arith))

pub send-Sends : (m : InferenceMessage) (out : Outbox) → Sends m out (send m out)
unfolding send
send-Sends m out = send_when-Sends out.takes m out.sent
