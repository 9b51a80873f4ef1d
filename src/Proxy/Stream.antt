-- ===== src/Proxy/Stream.antt =====
-- The streaming loop of `handle_streaming_request` (provider/src/proxy.rs). Messages sent to the
-- outbound channel are collected in order; a send to a closed channel is ignored by the code.
use d_inference.Prelude.{
  Bool, true, false, Option, none, some, List, [], ◌∷◌, ◌++◌, if◌then◌else◌, ◌>>=◌, unwrap_or,
  length, drop, is_empty, Text, codes, text_eq, starts_with, suc, ℕ, zero, ◌%◌, ◌+◌, ◌^◌,
}
use d_inference.Json.{JsonApi}
use d_inference.Protocol.{
  ProviderStats, InferenceMessage, inference_response_chunk, inference_complete,
}
use d_inference.Attestation.{Crypto, compute_response_attestation}
use d_inference.Proxy.Lines.{split_newline, trim_cr}

abbrev pub u64 : ℕ → ℕ
u64 n = n % 2 ^ 64

-- The variables of the loop, the messages sent and the shared counters.
pub record StreamState : Type 0 where
  pub buffer : Text
  pub response_content : Text
  pub completion_tokens : ℕ
  pub prompt_tokens : ℕ
  pub sent : List InferenceMessage
  pub stats : Option ProviderStats

-- The parameters that a request fixes.
pub record RequestEnv : Type 1 where
  pub json : JsonApi
  pub crypto : Crypto
  pub request_id : Text

-- `fetch_add` wraps around.
unfoldable pub count_request : ℕ → Option ProviderStats → Option ProviderStats
count_request tokens none = none
count_request tokens (some s) = some (record {
  requests_served = u64 (s.requests_served + 1);
  tokens_generated = u64 (s.tokens_generated + tokens);
})

-- What is sent when the stream is complete, and the counters.
unfoldable pub complete : RequestEnv → StreamState → StreamState
complete env s =
    let (response_hash, se_signature) =
      compute_response_attestation env.crypto env.request_id s.completion_tokens
        s.response_content in
    record s {
      sent =
          s.sent
          ++ inference_complete env.request_id
              (record { prompt_tokens = s.prompt_tokens; completion_tokens = s.completion_tokens })
              se_signature (some response_hash)
            ∷ [];
      stats = count_request s.completion_tokens s.stats;
    }

module _ (json : JsonApi) where
  open json use {Value, from_str, get, as_u64, as_str, as_array}

  -- `usage.get(key).and_then(|v| v.as_u64())`, with the present value where there is none.
  unfoldable pub u64_or : Option Value → Text → ℕ → ℕ
  u64_or usage key old = unwrap_or (do u ← usage; v ← get u key; as_u64 v) old

  unfoldable pub delta_text : Value → Text → Option Text
  delta_text choice key = do d ← get choice (codes "delta"); c ← get d key; as_str c

  abbrev push_text : Option Text → Text → Text
  push_text none content = content
  push_text (some t) content = content ++ t

  abbrev count_some : Option Text → ℕ → ℕ
  count_some none n = n
  count_some (some t) n = u64 (n + 1)

  -- `for choice in choices`
  unfoldable pub absorb_choices : List Value → ℕ → Text → ℕ × Text
  absorb_choices [] tokens content = (tokens, content)
  absorb_choices (choice ∷ rest) tokens content =
      let text = delta_text choice (codes "content") in
      let reasoning = delta_text choice (codes "reasoning_content") in
      absorb_choices rest (count_some text tokens) (push_text reasoning (push_text text content))

  -- Usage and delta content of one data line, if it is JSON.
  unfoldable pub absorb_json : Value → StreamState → StreamState
  unfolding u64_or absorb_choices
  absorb_json chunk s =
      let usage = get chunk (codes "usage") in
      let prompt = u64_or usage (codes "prompt_tokens") s.prompt_tokens in
      let counted = u64_or usage (codes "completion_tokens") s.completion_tokens in
      let choices = unwrap_or (do v ← get chunk (codes "choices"); as_array v) [] in
      let (tokens, content) = absorb_choices choices counted s.response_content in
      record s { prompt_tokens = prompt; completion_tokens = tokens; response_content = content }

  unfoldable pub absorb : Text → StreamState → StreamState
  absorb text s = elim (from_str text) [ none ↦ s | some chunk ↦ absorb_json chunk s ]

abbrev pub data_prefix : Text
data_prefix = codes "data: "

-- One line that has been taken off the buffer; `true` means that the function has returned.
unfoldable pub handle_line : RequestEnv → Text → StreamState → StreamState × Bool
handle_line env line s =
    if is_empty line
    then (s, false)
    else if starts_with line data_prefix
    then (if text_eq (drop 6 line) (codes "[DONE]")
        then (complete env s, true)
        else (let t = absorb env.json (drop 6 line) s in
            (
              record t { sent = t.sent ++ inference_response_chunk env.request_id line none ∷ [] },
              false,
            )))
    else (s, false)

-- The `while let` loop over the buffer's lines; fuel above the buffer's length is enough.
unfoldable pub process_lines : RequestEnv → ℕ → StreamState → StreamState × Bool
process_lines env zero s = (s, false)
process_lines env (suc fuel) s = elim (split_newline s.buffer) [
  | none ↦ (s, false)
  | some (raw, rest) ↦
      let (t, returned) = handle_line env (trim_cr raw) (record s { buffer = rest }) in
      elim returned [ true ↦ (t, true) | false ↦ process_lines env fuel t ]
]

-- A failure as the caller sees it: its message, and whether a connection error is its cause.
pub record Failure : Type 0 where
  pub message : Text
  pub is_connect : Bool

-- What the byte stream and the cancellation token give to the loop, one `select!` at a time.
pub data StreamEvent : Type 0 where
  bytes : Text → StreamEvent
  read_error : Bool → StreamEvent
  cancelled : StreamEvent

abbrev pub cancel_failure : Failure
cancel_failure = record { message = codes "request cancelled"; is_connect = false }

-- The outer loop. `lossy` is `String::from_utf8_lossy`; the end of the list is the end of the stream.
unfoldable pub run_stream :
    RequestEnv → (Text → Text) → List StreamEvent → StreamState → StreamState × Option Failure
run_stream env lossy [] s = (complete env s, none)
run_stream env lossy (cancelled ∷ events) s = (s, some cancel_failure)
run_stream env lossy (read_error connect ∷ events) s =
    (s, some (record { message = codes "error reading SSE chunk"; is_connect = connect }))
run_stream env lossy (bytes b ∷ events) s =
    let filled = record s { buffer = s.buffer ++ lossy b } in
    let (t, returned) = process_lines env (suc (length filled.buffer)) filled in
    elim returned [ true ↦ (t, none) | false ↦ run_stream env lossy events t ]
