-- ===== src/Serve/Sealing.antt =====
-- What leaves the provider for a request on the embedded engine.
use d_inference.Prelude.{
  ◌≡◌, refl, sym, ap, ◌∙◌, subst, inl, inr, Bool, true, false, not, Option, none, some, List, [],
  ◌∷◌, ◌++◌, arith, if◌then◌else◌, Option-cases, All, All-append, Text, codes, ℕ, length,
}
use d_inference.Json.{JsonApi}
use d_inference.Protocol.{InferenceMessage, inference_error, ProviderStats}
use d_inference.Proxy.Request.{wants_stream}
use d_inference.Proxy.Messages.{charge, charge-append}
use d_inference.Proxy.Terminal.{IsTerminal}
use d_inference.Serve.Inprocess.{
  Outbox, send, post, StreamEnd, finished, stream_failed, panicked, InferenceResult, Engine,
  InprocessEnv, sealed, sent_or_error, send_encrypted_inference_chunk, Streaming, stream_tokens,
  Generated, returned, generated, end_stream, generate_streaming, complete_request, send_whole,
  finish_request, handle_inprocess_request, send_sealed,
}
use d_inference.Serve.Sends.{IsSealed, IsAnswered, charge-sealed, Sends, send-Sends}

module _ (env : InprocessEnv) (takes : Option ℕ) (old : Option ProviderStats) where
  open env use {request_id as id}

  -- The state of the channel before the end.
  record IsOpen (out : Outbox) : Type 0 where
    chunks : All (IsSealed env) out.sent
    stays : takes ≡ none → out.takes ≡ none

  post-IsAnswered :
      (m : InferenceMessage) (out : Outbox) (stats : Option ProviderStats)
      → IsTerminal id m
      → stats ≡ charge (m ∷ []) old
      → IsOpen out
      → IsAnswered env takes old (post m out, stats)
  post-IsAnswered m out stats terminal charged h = elim (send-Sends m out) [
    | inl (ok, sent, stays) ↦ inl (
      (out.sent, m, sent, h.chunks, terminal),
      charged
          ∙ ap (charge (m ∷ [])) (sym (charge-sealed env out.sent old h.chunks))
          ∙ sym (charge-append out.sent (m ∷ []) old)
          ∙ ap (λ (ms : List InferenceMessage). charge ms old) (sym sent),
    )
    | inr (lost, same, closed) ↦ inr (
      λ e. closed (h.stays e),
      subst (λ (o : Outbox). All (IsSealed env) o.sent) (sym same) h.chunks,
    )
  ]

  fail-IsAnswered :
      (message : Text) (code : ℕ) (out : Outbox)
      → IsOpen out
      → IsAnswered env takes old (post (inference_error id message code) out, old)
  fail-IsAnswered message code out h =
      post-IsAnswered (inference_error id message code) out old refl (unfold charge in refl) h

  complete_request-IsAnswered :
      (result : InferenceResult) (signed : Text) (out : Outbox)
      → IsOpen out
      → IsAnswered env takes old (complete_request env result signed out old)
  unfolding complete_request charge
  complete_request-IsAnswered result signed out h = post-IsAnswered _ out _ refl refl h

  sent_or_error-IsOpen :
      (m : InferenceMessage) (out : Outbox) (r : Outbox × Bool)
      → IsSealed env m
      → Sends m out r
      → IsOpen out
      → IsOpen (sent_or_error env r).0
  sent_or_error-IsOpen m out (o, true) is_sealed (inl (ok, sent, stays)) h = record {
    chunks =
        subst (All (IsSealed env)) (sym sent)
          (All-append (IsSealed env) out.sent (m ∷ []) h.chunks (is_sealed, tt));
    stays = λ e. stays (h.stays e);
  }
  sent_or_error-IsOpen m out (o, true) is_sealed (inr (lost, same, closed)) h =
      absurd (ground arith)
  sent_or_error-IsOpen m out (o, false) is_sealed (inl (ok, sent, stays)) h = absurd (ground arith)
  sent_or_error-IsOpen m out (o, false) is_sealed (inr (lost, same, closed)) h =
      subst IsOpen (sym same) h

  send_sealed-IsOpen :
      (draw : ℕ) (plaintext : Text) (ciphertext : Option Text) (out : Outbox)
      → env.sealing.encrypt draw env.response_public_key plaintext ≡ ciphertext
      → IsOpen out
      → IsOpen (send_sealed env ciphertext out).0
  send_sealed-IsOpen draw plaintext none out made h = h
  send_sealed-IsOpen draw plaintext (some c) out made h =
      sent_or_error-IsOpen (sealed env c) out (send (sealed env c) out)
        (
          refl,
          refl,
          record {
            draw = draw;
            plaintext = plaintext;
            encrypted = c;
            made = made;
            carried = refl;
            keyed = refl;
          },
        )
        (send-Sends (sealed env c) out) h

  send_encrypted_inference_chunk-IsOpen :
      (plaintext : Text) (out : Outbox)
      → IsOpen out
      → IsOpen (send_encrypted_inference_chunk env plaintext out).0
  unfolding send_encrypted_inference_chunk
  send_encrypted_inference_chunk-IsOpen plaintext out h =
      send_sealed-IsOpen (length out.sent) plaintext
        (env.sealing.encrypt (length out.sent) env.response_public_key plaintext) out refl h

  stream_tokens-IsOpen :
      (tokens : List Text) (s : Streaming env)
      → IsOpen s.out
      → IsOpen (stream_tokens env tokens s).out
  unfolding stream_tokens
  stream_tokens-IsOpen [] s h = h
  stream_tokens-IsOpen (token ∷ tokens) s h =
      let h' = send_encrypted_inference_chunk-IsOpen token s.out h in
      elim (Option-cases (send_encrypted_inference_chunk env token s.out).1) [
        | inl e ↦ rw (e, stream_tokens) (stream_tokens-IsOpen tokens _ h')
        | inr (err, e) ↦ rw (e, stream_tokens) h'
      ]

  -- An answer, or an early return behind an error.
  abbrev Answers : Generated env → Type 0
  Answers (returned out) = IsAnswered env takes old (out, old)
  Answers (generated out result) = IsOpen out

  end_stream-Answers :
      (end : StreamEnd) (s : Streaming env) → IsOpen s.out → Answers (end_stream env end s)
  unfolding end_stream
  end_stream-Answers (finished p c) s h =
      let h' = send_encrypted_inference_chunk-IsOpen (codes "data: [DONE]") s.out h in
      elim (Option-cases (send_encrypted_inference_chunk env (codes "data: [DONE]") s.out).1) [
        | inl e ↦ rw (e, end_stream) h'
        | inr (err, e) ↦ rw (e, end_stream) (fail-IsAnswered _ 500 _ h')
      ]
  end_stream-Answers stream_failed s h = h
  end_stream-Answers panicked s h = h

  generate_streaming-Answers :
      (tokens : List Text) (end : StreamEnd) (out : Outbox)
      → IsOpen out
      → Answers (generate_streaming env (tokens, end) out)
  unfolding generate_streaming
  generate_streaming-Answers tokens end out h =
      let start : Streaming env = record {
        out = out;
        streamed_count = 0;
        signed_response = [];
        send_err = none;
      } in
      let h' = stream_tokens-IsOpen tokens start h in
      elim (Option-cases (stream_tokens env tokens start).send_err) [
        | inl e ↦
            rw (e, generate_streaming) (end_stream-Answers end (stream_tokens env tokens start) h')
        | inr (err, e) ↦ rw (e, generate_streaming) (fail-IsAnswered _ 500 _ h')
      ]

  send_whole-IsAnswered :
      (result : InferenceResult) (out : Outbox)
      → IsOpen out
      → IsAnswered env takes old (send_whole env result out old)
  unfolding send_whole
  send_whole-IsAnswered result out h =
      let payload = codes "data: " ++ result.text in
      let h' = send_encrypted_inference_chunk-IsOpen payload out h in
      elim (Option-cases (send_encrypted_inference_chunk env payload out).1) [
        | inl e ↦ rw (e, send_whole) (complete_request-IsAnswered result payload _ h')
        | inr (err, e) ↦ rw (e, send_whole) (fail-IsAnswered _ 500 _ h')
      ]

  finish_request-IsAnswered :
      (is_streaming : Bool) (g : Generated env)
      → Answers g
      → IsAnswered env takes old (finish_request env is_streaming g old)
  unfolding finish_request
  finish_request-IsAnswered b (returned out) h = h
  finish_request-IsAnswered b (generated out none) h = fail-IsAnswered _ 500 out h
  finish_request-IsAnswered true (generated out (some result)) h =
      complete_request-IsAnswered result result.text out h
  finish_request-IsAnswered false (generated out (some result)) h =
      send_whole-IsAnswered result out h

  Answers-if :
      (b : Bool) (g g' : Generated env) → Answers g → Answers g' → Answers (if b then g else g')
  Answers-if true g g' h h' = h
  Answers-if false g g' h h' = h'

  IsAnswered-if :
      (b : Bool) (r r' : Outbox × Option ProviderStats)
      → IsAnswered env takes old r
      → IsAnswered env takes old r'
      → IsAnswered env takes old (if b then r else r')
  IsAnswered-if true r r' h h' = h
  IsAnswered-if false r r' h h' = h'

-- A request on the embedded engine is answered with encrypted chunks only, and then with exactly one
-- completion or error, whatever the engine and the encryption do; the counters grow by the completion's
-- tokens and one request, and not otherwise. An encrypted chunk has no data but a payload, which is the
-- encoded result of encrypting some text under the request's response key, beside the provider's public
-- key. The one exception is a receiver that was dropped: until then it has taken encrypted chunks only.
pub handle_inprocess_request-IsAnswered :
    (env : InprocessEnv) (takes : Option ℕ) (old : Option ProviderStats) (sip_enabled : Bool)
    (engine : Engine (JsonApi.Value env.json)) (body : JsonApi.Value env.json)
    → IsAnswered env takes old (
        handle_inprocess_request env sip_enabled engine body
          (record { sent = []; takes = takes })
          old)
unfolding handle_inprocess_request
handle_inprocess_request-IsAnswered env takes old sip_enabled engine body =
    let start : IsOpen env takes old (record { sent = []; takes = takes }) = record {
      chunks = tt;
      stays = λ e. e;
    } in
    let streams = wants_stream env.json body in
    IsAnswered-if env takes old (not sip_enabled) _ _ (fail-IsAnswered env takes old _ 503 _ start)
      (finish_request-IsAnswered env takes old streams _ (
        Answers-if env takes old streams _ _
          (generate_streaming-Answers env takes old (engine.stream body).0 (engine.stream body).1 _
            start)
          start))
