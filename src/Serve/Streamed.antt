-- ===== src/Serve/Streamed.antt =====
-- A streamed request on the embedded engine that nothing disturbs.
use d_inference.Prelude.{
  ◌≡◌, refl, ap, ◌∙◌, true, Option, none, some, List, [], ◌∷◌, ◌++◌, append-nil, append_assoc,
  arith, length, Text, codes, ℕ, ◌+◌, ◌<◌, ◌^◌, suc, max, length-append,
}
use d_inference.Json.{JsonApi}
use d_inference.Protocol.{InferenceMessage, inference_complete, ProviderStats}
use d_inference.Attestation.{compute_response_attestation}
use d_inference.Proxy.Stream.{count_request, u64}
use d_inference.Proxy.Request.{wants_stream}
use d_inference.Proxy.Relay.{concat}
use d_inference.Serve.Inprocess.{
  Outbox, send, finished, Engine, InprocessEnv, sealed, send_encrypted_inference_chunk, Streaming,
  stream_tokens, generated, end_stream, generate_streaming, complete_request, finish_request,
  handle_inprocess_request,
}

module _ (env : InprocessEnv) (cipher : ℕ → Text → Text)
    (encrypts : (n : ℕ) (p : Text)
      → env.sealing.encrypt n env.response_public_key p ≡ some (cipher n p)) where
  open env use {json, crypto, request_id}

  -- The chunks of some texts, each with a draw of its own.
  abbrev pub sealed_all : ℕ → List Text → List InferenceMessage
  sealed_all n [] = []
  sealed_all n (p ∷ ps) = sealed env (cipher n p) ∷ sealed_all (suc n) ps

  length-sealed_all : (n : ℕ) (ps : List Text) → length (sealed_all n ps) ≡ length ps
  length-sealed_all n [] = refl
  length-sealed_all n (p ∷ ps) = ap suc (length-sealed_all (suc n) ps)

  abbrev open_with : List InferenceMessage → Outbox
  open_with sent = record { sent = sent; takes = none }

  send_exact :
      (p : Text) (sent : List InferenceMessage)
      → send_encrypted_inference_chunk env p (open_with sent)
        ≡ (open_with (sent ++ sealed env (cipher (length sent) p) ∷ []), none)
  unfolding send_encrypted_inference_chunk send
  send_exact p sent = rw (encrypts (length sent) p) refl

  abbrev streaming : List InferenceMessage → ℕ → Text → Streaming env
  streaming sent n signed = record {
    out = open_with sent;
    streamed_count = n;
    signed_response = signed;
    send_err = none;
  }

  stream_step :
      (token : Text) (tokens : List Text) (sent : List InferenceMessage) (n : ℕ) (signed : Text)
      → stream_tokens env (token ∷ tokens) (streaming sent n signed)
        ≡ stream_tokens env tokens (
            streaming
              (sent ++ sealed env (cipher (length sent) token) ∷ [])
              (u64 (n + 1))
              (signed ++ token))
  unfolding stream_tokens
  stream_step token tokens sent n signed =
      rw (ap (λ (r : Outbox × Option Text). r.1) (send_exact token sent), stream_tokens)
        (ap
          (λ (o : Outbox). stream_tokens env tokens (record {
            out = o;
            streamed_count = u64 (n + 1);
            signed_response = signed ++ token;
            send_err = none;
          }))
          (ap (λ (r : Outbox × Option Text). r.0) (send_exact token sent)))

  add_one : (n : ℕ) → n + 1 ≡ suc n
  add_one n = omega arith

  stream_tokens_exact :
      (tokens : List Text) (sent : List InferenceMessage) (n : ℕ) (signed : Text)
      → n + length tokens < 2 ^ 64
      → stream_tokens env tokens (streaming sent n signed)
        ≡ streaming
            (sent ++ sealed_all (length sent) tokens)
            (n + length tokens)
            (signed ++ concat tokens)
  stream_tokens_exact [] sent n signed h =
      unfold stream_tokens in
      rw (append-nil sent, append-nil signed)
        (ap (λ (k : ℕ). streaming sent k signed) (omega arith))
  stream_tokens_exact (token ∷ tokens) sent n signed h =
      stream_step token tokens sent n signed
      ∙ ap
          (λ (k : ℕ).
            stream_tokens env tokens (
              streaming (sent ++ sealed env (cipher (length sent) token) ∷ []) k (signed ++ token)))
          (omega (arith, h))
      ∙ stream_tokens_exact tokens (sent ++ sealed env (cipher (length sent) token) ∷ []) (suc n)
          (signed ++ token) (omega (arith, h))
      ∙ rw
          (
            length-append sent (sealed env (cipher (length sent) token) ∷ []),
            add_one (length sent),
            append_assoc sent (sealed env (cipher (length sent) token) ∷ [])
                (sealed_all (suc (length sent)) tokens),
            append_assoc signed token (concat tokens),
          )
          (ap
            (λ (k : ℕ).
              streaming
                (sent
                  ++ sealed env (cipher (length sent) token)
                    ∷ sealed_all (suc (length sent)) tokens)
                k (signed ++ (token ++ concat tokens)))
            (omega arith))

  abbrev done : Text
  done = codes "data: [DONE]"

  -- What a streamed request ends with, for the tokens that were sent.
  abbrev pub result_of : List Text → ℕ → ℕ → InferenceMessage
  result_of tokens prompt completion =
      let (response_hash, se_signature) =
        compute_response_attestation crypto request_id (max completion (length tokens))
          (concat tokens) in
      inference_complete request_id
        (record { prompt_tokens = prompt; completion_tokens = max completion (length tokens) })
        se_signature (some response_hash)

  end_stream_exact :
      (sent : List InferenceMessage) (n prompt completion : ℕ) (signed : Text)
      → end_stream env (finished prompt completion) (streaming sent n signed)
        ≡ generated (open_with (sent ++ sealed env (cipher (length sent) done) ∷ [])) (
            some (record {
              text = signed;
              prompt_tokens = prompt;
              completion_tokens = max completion n;
            }))
  unfolding end_stream
  end_stream_exact sent n prompt completion signed =
      rw (ap (λ (r : Outbox × Option Text). r.1) (send_exact done sent), end_stream)
        (ap
          (λ (o : Outbox). generated o (
            some (record {
              text = signed;
              prompt_tokens = prompt;
              completion_tokens = max completion n;
            })))
          (ap (λ (r : Outbox × Option Text). r.0) (send_exact done sent)))

  generate_streaming_exact :
      (tokens : List Text) (prompt completion : ℕ)
      → length tokens < 2 ^ 64
      → generate_streaming env (tokens, finished prompt completion) (open_with [])
        ≡ generated
            (open_with (sealed_all 0 tokens ++ sealed env (cipher (length tokens) done) ∷ []))
            (some (record {
              text = concat tokens;
              prompt_tokens = prompt;
              completion_tokens = max completion (length tokens);
            }))
  unfolding generate_streaming
  generate_streaming_exact tokens prompt completion h =
      let run = stream_tokens_exact tokens [] 0 [] (omega (arith, h)) in
      rw (ap (λ (s : Streaming env). s.send_err) run, generate_streaming)
        (ap (end_stream env (finished prompt completion)) run
          ∙ end_stream_exact (sealed_all 0 tokens) (0 + length tokens) prompt completion
              (concat tokens)
          ∙ ap
              (λ (k : ℕ).
                generated (open_with (sealed_all 0 tokens ++ sealed env (cipher k done) ∷ [])) (
                  some (record {
                    text = concat tokens;
                    prompt_tokens = prompt;
                    completion_tokens = max completion (0 + length tokens);
                  })))
              (length-sealed_all 0 tokens)
          ∙ ap
              (λ (k : ℕ).
                generated
                  (open_with (sealed_all 0 tokens ++ sealed env (cipher (length tokens) done) ∷ []))
                  (some (record {
                    text = concat tokens;
                    prompt_tokens = prompt;
                    completion_tokens = max completion k;
                  })))
              (omega arith))

  -- A streamed request that the engine finishes, when every chunk can be encrypted and the receiver
  -- stays: each token is sent as one encrypted chunk, in order and with a nonce of its own, then an
  -- encrypted end marker, and then the completion. It is charged for the engine's count of tokens or
  -- the number of chunks, whichever is larger, and the attestation is that of the tokens' text. Fewer
  -- than 2 ^ 64 tokens come.
  pub handle_inprocess_request-streamed :
      (engine : Engine (JsonApi.Value json)) (body : JsonApi.Value json) (tokens : List Text)
      (prompt completion : ℕ) (old : Option ProviderStats)
      → wants_stream json body ≡ true
      → engine.stream body ≡ (tokens, finished prompt completion)
      → length tokens < 2 ^ 64
      → handle_inprocess_request env true engine body (record { sent = []; takes = none }) old ≡ (
        record {
          sent =
              sealed_all 0 tokens
              ++ (sealed env (cipher (length tokens) (codes "data: [DONE]"))
                  ∷ result_of tokens prompt completion
                  ∷ []);
          takes = none;
        },
        count_request (max completion (length tokens)) old,
      )
  unfolding handle_inprocess_request finish_request complete_request send
  handle_inprocess_request-streamed engine body tokens prompt completion old streams ends h =
      rw (streams, ends, generate_streaming_exact tokens prompt completion h)
        (ap
          (λ (ms : List InferenceMessage).
            (open_with ms, count_request (max completion (length tokens)) old))
          (append_assoc (sealed_all 0 tokens) (sealed env (cipher (length tokens) done) ∷ [])
            (result_of tokens prompt completion ∷ [])))
