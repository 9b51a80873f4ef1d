-- ===== src/Proxy/Request.antt =====
-- `handle_inference_request` and the two handlers that it chooses between (provider/src/proxy.rs). What
-- the backend answers at a URL, and when the request is cancelled, comes from outside.
use d_inference.Prelude.{
  Bool, false, not, ◌&&◌, Option, none, some, List, [], ◌∷◌, ◌++◌, ltb, leb, if◌then◌else◌, ◌>>=◌,
  unwrap_or, Text, codes, ℕ,
}
use d_inference.Json.{JsonApi}
use d_inference.Protocol.{
  UsageInfo, ProviderStats, InferenceMessage, inference_response_chunk, inference_complete,
  inference_error,
}
use d_inference.Attestation.{compute_response_attestation}
use d_inference.Proxy.Stream.{
  RequestEnv, StreamState, StreamEvent, Failure, cancel_failure, count_request, run_stream,
}

-- How `post(&url).json(body).send()` ends, with the status and what can be read of the body.
pub data SendOutcome (Body : Type 0) : Type 0 where
  responded : ℕ → Text → Body → SendOutcome Body
  send_failed : Bool → SendOutcome Body
  send_cancelled : SendOutcome Body

pub data JsonOutcome (Value : Type 0) : Type 0 where
  parsed : Value → JsonOutcome Value
  not_json : Bool → JsonOutcome Value
  json_cancelled : JsonOutcome Value

pub record Backend (Value : Type 0) : Type 0 where
  pub post_json : Text → Value → SendOutcome (JsonOutcome Value)
  pub post_stream : Text → Value → SendOutcome (List StreamEvent)

-- `StatusCode::is_success`
abbrev pub is_success : ℕ → Bool
is_success status = leb 200 status && ltb status 300

module _ (json : JsonApi) where
  open json use {Value, get, as_bool, as_u64, as_str}

  -- `u.get(first).or_else(|| u.get(second))`
  unfoldable pub get_either : Value → Text → Text → Option Value
  get_either u first second = elim (get u first) [ some v ↦ some v | none ↦ get u second ]

  unfoldable pub extract_usage : Value → UsageInfo
  unfolding get_either
  extract_usage response =
      let usage = get response (codes "usage") in
      record {
        prompt_tokens =
            unwrap_or
              (do
                u ← usage
                v ← get_either u (codes "prompt_tokens") (codes "input_tokens")
                as_u64 v)
              0;
        completion_tokens =
            unwrap_or
              (do
                u ← usage
                v ← get_either u (codes "completion_tokens") (codes "output_tokens")
                as_u64 v)
              0;
      }

  unfoldable pub request_url : Text → Value → Text
  request_url backend_url body =
      backend_url
      ++ unwrap_or (do v ← get body (codes "endpoint"); as_str v) (codes "/v1/chat/completions")

  unfoldable pub wants_stream : Value → Bool
  wants_stream body = unwrap_or (do v ← get body (codes "stream"); as_bool v) false

-- The messages sent, the counters, and the failure if there is one.
pub record Handled : Type 0 where
  pub sent : List InferenceMessage
  pub stats : Option ProviderStats
  pub failure : Option Failure

abbrev failing : Option ProviderStats → Text → Bool → Handled
failing stats message connect = record {
  sent = [];
  stats = stats;
  failure = some (record { message = message; is_connect = connect });
}

-- Both handlers pass an unsuccessful status on.
abbrev refused : Text → Option ProviderStats → ℕ → Text → Handled
refused request_id stats status error_body = record {
  sent = inference_error request_id error_body status ∷ [];
  stats = stats;
  failure = none;
}

module _ (env : RequestEnv) where
  open env use {json, crypto, request_id}

  unfoldable pub answer_json : JsonApi.Value json → Option ProviderStats → Handled
  answer_json response stats =
      let usage = extract_usage json response in
      let raw_json = JsonApi.to_string json response in
      let (response_hash, se_signature) =
        compute_response_attestation crypto request_id usage.completion_tokens raw_json in
      record {
        sent =
            inference_response_chunk request_id (codes "data: " ++ raw_json) none
            ∷ inference_complete request_id usage se_signature (some response_hash)
            ∷ [];
        stats = count_request usage.completion_tokens stats;
        failure = none;
      }

  unfoldable pub read_json : JsonOutcome (JsonApi.Value json) → Option ProviderStats → Handled
  unfolding answer_json
  read_json (parsed response) stats = answer_json response stats
  read_json (not_json connect) stats =
      failing stats (codes "failed to parse backend response as JSON") connect
  read_json json_cancelled stats = failing stats cancel_failure.message false

  unfoldable pub handle_non_streaming_request :
      SendOutcome (JsonOutcome (JsonApi.Value json)) → Option ProviderStats → Handled
  unfolding read_json
  handle_non_streaming_request (responded status error_body body) stats =
      if not (is_success status)
      then refused request_id stats status error_body
      else read_json body stats
  handle_non_streaming_request (send_failed connect) stats =
      failing stats (codes "failed to send request to backend") connect
  handle_non_streaming_request send_cancelled stats = failing stats cancel_failure.message false

  abbrev pub start_stream : Option ProviderStats → StreamState
  start_stream stats = record {
    buffer = [];
    response_content = [];
    completion_tokens = 0;
    prompt_tokens = 0;
    sent = [];
    stats = stats;
  }

  unfoldable pub handle_streaming_request :
      (Text → Text) → SendOutcome (List StreamEvent) → Option ProviderStats → Handled
  handle_streaming_request lossy (responded status error_body events) stats =
      if not (is_success status)
      then refused request_id stats status error_body
      else (let (s, failure) = run_stream env lossy events (start_stream stats) in
          record { sent = s.sent; stats = s.stats; failure = failure })
  handle_streaming_request lossy (send_failed connect) stats =
      failing stats (codes "failed to send streaming request to backend") connect
  handle_streaming_request lossy send_cancelled stats = failing stats cancel_failure.message false

  unfoldable pub dispatch_request :
      (Text → Text)
      → Backend (JsonApi.Value json)
      → Text
      → JsonApi.Value json
      → Option ProviderStats
      → Handled
  dispatch_request lossy backend backend_url body stats =
      let url = request_url json backend_url body in
      if wants_stream json body
      then handle_streaming_request lossy (backend.post_stream url body) stats
      else handle_non_streaming_request (backend.post_json url body) stats

  -- The messages, the counters and whether the backend appears to be down.
  pub record Outcome : Type 0 where
    pub messages : List InferenceMessage
    pub counters : Option ProviderStats
    pub backend_dead : Bool

  -- The handling of the result, with `is_cancelled` as the token is then.
  unfoldable pub report : Bool → Handled → Outcome
  report is_cancelled h = elim h.failure [
    | none ↦ record { messages = h.sent; counters = h.stats; backend_dead = false }
    | some f ↦
        if is_cancelled
        then record { messages = h.sent; counters = h.stats; backend_dead = false }
        else record {
          messages = h.sent ++ inference_error request_id f.message 500 ∷ [];
          counters = h.stats;
          backend_dead = f.is_connect;
        }
  ]

  unfoldable pub handle_inference_request :
      (sip_enabled is_cancelled : Bool)
      → (Text → Text)
      → Backend (JsonApi.Value json)
      → Text
      → JsonApi.Value json
      → Option ProviderStats
      → Outcome
  unfolding report
  handle_inference_request sip_enabled is_cancelled lossy backend backend_url body stats =
      if not sip_enabled
      then record {
        messages =
            inference_error request_id (codes "provider security check failed: SIP disabled") 503
            ∷ [];
        counters = stats;
        backend_dead = false;
      }
      else report is_cancelled (dispatch_request lossy backend backend_url body stats)
