-- ===== src/Serve/Inprocess.antt =====
-- `handle_inprocess_request`: one request on the embedded engine, answered in encrypted chunks.
use d_inference.Prelude.{
  Bool, true, false, not, Option, none, some, List, [], ◌∷◌, ◌++◌, if◌then◌else◌, Text, codes, max,
  suc, ℕ, ◌+◌, zero, length,
}
use d_inference.Json.{JsonApi}
use d_inference.Protocol.{
  InferenceMessage, inference_response_chunk, inference_complete, inference_error, ProviderStats,
}
use d_inference.Attestation.{Crypto, compute_response_attestation}
use d_inference.Proxy.Stream.{u64, count_request}
use d_inference.Proxy.Request.{wants_stream}

-- The outbound channel: the messages that it took, and how many more it takes before the receiver is
-- dropped; `none` is a receiver that stays.
pub record Outbox : Type 0 where
  pub sent : List InferenceMessage
  pub takes : Option ℕ

abbrev pub send_when : Option ℕ → InferenceMessage → List InferenceMessage → Outbox × Bool
send_when none m sent = (record { sent = sent ++ m ∷ []; takes = none }, true)
send_when (some zero) m sent = (record { sent = sent; takes = some zero }, false)
send_when (some (suc n)) m sent = (record { sent = sent ++ m ∷ []; takes = some n }, true)

unfoldable pub send : InferenceMessage → Outbox → Outbox × Bool
send m out = send_when out.takes m out.sent

-- `let _ = outbound_tx.send(m)`
abbrev pub post : InferenceMessage → Outbox → Outbox
post m out = (send m out).0

-- The provider's key pair, with encryption to a response key, and base64. The nonce of a call is one
-- of the request's draws.
pub record Sealing : Type 0 where
  pub encrypt : (draw : ℕ) (key plaintext : Text) → Option Text
  pub public_key_base64 : Text
  pub encode : Text → Text

-- How the engine's stream ends, once its tokens are delivered.
pub data StreamEnd : Type 0 where
  finished : ℕ → ℕ → StreamEnd
  stream_failed : StreamEnd
  panicked : StreamEnd

pub record InferenceResult : Type 0 where
  pub text : Text
  pub prompt_tokens : ℕ
  pub completion_tokens : ℕ

-- `SharedEngine`, as far as a request meets it.
pub record Engine (Value : Type 0) : Type 0 where
  pub stream : Value → List Text × StreamEnd
  pub generate : Value → Option InferenceResult

-- What a request fixes.
pub record InprocessEnv : Type 1 where
  pub json : JsonApi
  pub crypto : Crypto
  pub sealing : Sealing
  pub request_id : Text
  pub response_public_key : Text

module _ (env : InprocessEnv) where
  open env use {json, crypto, sealing, request_id, response_public_key}

  abbrev pub sealed : Text → InferenceMessage
  sealed ciphertext = inference_response_chunk request_id [] (
      some (record {
        ephemeral_public_key = sealing.public_key_base64;
        ciphertext = sealing.encode ciphertext;
      }))

  abbrev pub fail : Text → Outbox → Outbox
  fail message out = post (inference_error request_id message 500) out

  abbrev pub sent_or_error : Outbox × Bool → Outbox × Option Text
  sent_or_error (out, true) = (out, none)
  sent_or_error (out, false) = (out, some (codes "failed to send encrypted inference chunk"))

  -- The error, if there is one, is its outermost message.
  abbrev pub send_sealed : Option Text → Outbox → Outbox × Option Text
  send_sealed none out = (out, some (codes "failed to encrypt inference chunk"))
  send_sealed (some ciphertext) out = sent_or_error (send (sealed ciphertext) out)

  -- Each call draws a nonce of its own. Nothing is encrypted behind a chunk that was not sent, so the
  -- number of chunks that were sent before numbers the request's draws.
  unfoldable pub send_encrypted_inference_chunk : Text → Outbox → Outbox × Option Text
  unfolding send
  send_encrypted_inference_chunk plaintext out =
      send_sealed (sealing.encrypt (length out.sent) response_public_key plaintext) out

  -- The variables of the loop over the tokens.
  pub record Streaming : Type 0 where
    pub out : Outbox
    pub streamed_count : ℕ
    pub signed_response : Text
    pub send_err : Option Text

  unfoldable pub stream_tokens : List Text → Streaming → Streaming
  stream_tokens [] s = s
  stream_tokens (token ∷ tokens) s =
      let signed = s.signed_response ++ token in
      let (out, send_err) = send_encrypted_inference_chunk token s.out in
      elim send_err [
        | some err ↦ record s { out = out; signed_response = signed; send_err = some err }
        | none ↦ stream_tokens tokens (record {
          out = out;
          streamed_count = u64 (s.streamed_count + 1);
          signed_response = signed;
          send_err = none;
        })
      ]

  -- The result of either mode; `returned` is an early return, behind an error message.
  pub data Generated : Type 0 where
    returned : Outbox → Generated
    generated : Outbox → Option InferenceResult → Generated

  unfoldable pub end_stream : StreamEnd → Streaming → Generated
  end_stream (finished prompt_tokens completion_tokens) s =
      let (out, send_err) = send_encrypted_inference_chunk (codes "data: [DONE]") s.out in
      elim send_err [
        | some err ↦ returned (fail (codes "failed to encrypt terminal chunk: " ++ err) out)
        | none ↦ generated out (
            some (record {
              text = s.signed_response;
              prompt_tokens = prompt_tokens;
              completion_tokens = max completion_tokens s.streamed_count;
            }))
      ]
  end_stream stream_failed s = generated s.out none
  end_stream panicked s = generated s.out none

  unfoldable pub generate_streaming : List Text × StreamEnd → Outbox → Generated
  unfolding end_stream
  generate_streaming (tokens, end) out =
      let s =
        stream_tokens tokens
          (record { out = out; streamed_count = 0; signed_response = []; send_err = none }) in
      elim s.send_err [
        | some err ↦ returned (fail (codes "failed to encrypt streaming chunk: " ++ err) s.out)
        | none ↦ end_stream end s
      ]

  -- The completion, with the attestation of the text that was sent.
  unfoldable pub complete_request :
      InferenceResult → Text → Outbox → Option ProviderStats → Outbox × Option ProviderStats
  complete_request result signed out stats =
      let (response_hash, se_signature) =
        compute_response_attestation crypto request_id result.completion_tokens signed in
      (
        post
            (inference_complete request_id
              (record {
                prompt_tokens = result.prompt_tokens;
                completion_tokens = result.completion_tokens;
              })
              se_signature (some response_hash))
            out,
        count_request result.completion_tokens stats,
      )

  unfoldable pub send_whole :
      InferenceResult → Outbox → Option ProviderStats → Outbox × Option ProviderStats
  send_whole result out stats =
      let payload = codes "data: " ++ result.text in
      let (out', send_err) = send_encrypted_inference_chunk payload out in
      elim send_err [
        | some err ↦ (fail (codes "failed to encrypt non-streaming response: " ++ err) out', stats)
        | none ↦ complete_request result payload out' stats
      ]

  unfoldable pub finish_request :
      Bool → Generated → Option ProviderStats → Outbox × Option ProviderStats
  finish_request is_streaming (returned out) stats = (out, stats)
  finish_request is_streaming (generated out none) stats =
      (fail (codes "in-process inference failed") out, stats)
  finish_request is_streaming (generated out (some result)) stats =
      if not is_streaming
      then send_whole result out stats
      else complete_request result result.text out stats

  unfoldable pub handle_inprocess_request :
      Bool
      → Engine (JsonApi.Value json)
      → JsonApi.Value json
      → Outbox
      → Option ProviderStats
      → Outbox × Option ProviderStats
  handle_inprocess_request sip_enabled engine body out stats =
      let is_streaming = wants_stream json body in
      if not sip_enabled
      then (post (inference_error request_id (codes "SIP disabled") 503) out, stats)
      else finish_request is_streaming
          (if is_streaming
            then generate_streaming (engine.stream body) out
            else generated out (engine.generate body))
          stats
