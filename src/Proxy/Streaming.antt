-- ===== src/Proxy/Streaming.antt =====
-- `handle_streaming_request` on a response that the backend finishes.
use d_inference.Prelude.{
  ◌≡◌, refl, ap, ◌∙◌, true, Option, none, List, [], ◌∷◌, ◌++◌, map, All, Text, ℕ,
}
use d_inference.Protocol.{ProviderStats}
use d_inference.Proxy.Lines.{split_newline, parse_sse_lines}
use d_inference.Proxy.Stream.{RequestEnv, StreamState, bytes}
use d_inference.Proxy.Request.{responded, is_success, start_stream, handle_streaming_request}
use d_inference.Proxy.Chunking.{run_lines}
use d_inference.Proxy.Relay.{concat, finish, run_stream-MeetsLines}
use d_inference.Proxy.Messages.{relayed, completion, run_lines_sent}

-- The last state of a response, from the lines of its whole text.
unfoldable pub final_state : RequestEnv → Text → Option ProviderStats → StreamState
final_state env text stats =
    finish env (run_lines env (parse_sse_lines text).0 (start_stream env stats))

-- The backend's response may be cut into chunks anywhere, as long as each chunk is decoded as it is:
-- the coordinator is sent each data line before the end marker as one chunk, in order, and then one
-- completion; the messages and the counters are those of the whole text, and nothing fails.
pub handle_streaming_request-relayed :
    (env : RequestEnv) (lossy : Text → Text) (status : ℕ) (error_body : Text) (chunks : List Text)
    (stats : Option ProviderStats)
    → is_success status ≡ true
    → All (λ c. lossy c ≡ c) chunks
    → let h =
        handle_streaming_request env lossy (responded status error_body (map bytes chunks)) stats in
      let text = concat chunks in
      (h.sent
        ≡ relayed env.request_id (parse_sse_lines text).0
          ++ completion env (final_state env text stats) ∷ [])
      × (h.stats ≡ (final_state env text stats).stats)
      × (h.failure ≡ none)
unfolding handle_streaming_request final_state split_newline
handle_streaming_request-relayed env lossy status error_body chunks stats good h =
    let s = start_stream env stats in
    let (state, failure) = run_stream-MeetsLines env lossy chunks s h refl in
    rw (good, handle_streaming_request)
      (
        ap (λ (t : StreamState). t.sent) state
            ∙ run_lines_sent env (parse_sse_lines (concat chunks)).0 s,
        ap (λ (t : StreamState). t.stats) state,
        failure,
      )
