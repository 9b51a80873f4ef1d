-- ===== src/Proxy/Examples.antt =====
-- One streamed request, cut inside a line, and the theorems at it.
use d_inference.Prelude.{
  decimal, ◌≡◌, refl, true, false, ◌&&◌, Option, none, some, List, [], ◌∷◌, ◌++◌, map, arith, ◌==◌,
  if◌then◌else◌, All, Text, codes, text_eq, ℕ,
}
use d_inference.Json.{JsonApi}
use d_inference.Attestation.{compute_response_attestation}
use d_inference.Protocol.{ProviderStats, inference_response_chunk, inference_complete}
use d_inference.Proxy.Lines.{split_newline, trim_cr, parse_sse_lines}
use d_inference.Proxy.Stream.{
  RequestEnv, bytes, run_stream, process_lines, handle_line, absorb, absorb_json, delta_text,
  complete, count_request,
}
use d_inference.Proxy.Request.{
  Backend, responded, send_failed, handle_inference_request, handle_streaming_request,
  dispatch_request, request_url, wants_stream,
}
use d_inference.Proxy.Framing.{IsLine, unlines, parse_sse_lines-unlines}
use d_inference.Proxy.Relay.{concat}
use d_inference.Proxy.Messages.{relayed, completion}
use d_inference.Proxy.Streaming.{final_state, handle_streaming_request-relayed}
use d_inference.Proxy.Once.{IsSettled, handle_inference_request-IsSettled}

-- A reader of one JSON text: value 0 is a request for a stream, value 1 a chunk whose only choice adds
-- the text "hi".
abbrev toy_get : ℕ → Text → Option ℕ
toy_get v key =
    if v == 0 && text_eq key (codes "stream")
    then some 6
    else if v == 1 && text_eq key (codes "choices")
    then some 2
    else if v == 3 && text_eq key (codes "delta")
    then some 4
    else if v == 4 && text_eq key (codes "content")
    then some 5
    else none

abbrev toy_json : JsonApi
toy_json = record {
  Value = ℕ;
  from_str = λ s. if text_eq s (codes "c") then some 1 else none;
  to_string = λ v. codes "j";
  get = toy_get;
  as_bool = λ v. if v == 6 then some true else none;
  as_u64 = λ v. none;
  as_str = λ v. if v == 5 then some (codes "hi") else none;
  as_array = λ v. if v == 2 then some (3 ∷ []) else none;
}

abbrev env : RequestEnv
env = record {
  json = toy_json;
  crypto = record { sha256_hex = λ s. s; se_handle = none };
  request_id = codes "r1";
}

abbrev chunks : List Text
chunks = codes "data: c\r\n\nda" ∷ codes "ta: [DONE]\n" ∷ []

abbrev plain : Text → Text
plain b = b

abbrev backend : Backend ℕ
backend = record {
  post_json = λ url body. send_failed true;
  post_stream = λ url body. responded 200 [] (map bytes chunks);
}

abbrev zeros : Option ProviderStats
zeros = some (record { requests_served = 0; tokens_generated = 0 })

streamed :
    (handle_inference_request env true false plain backend (codes "http://b") 0 zeros).messages
    ≡ inference_response_chunk (codes "r1") (codes "data: c") none
      ∷ inference_complete
          (codes "r1")
          (record { prompt_tokens = 0; completion_tokens = 1 })
          none
          (some (codes "r1:1:hi"))
      ∷ []
unfolding handle_inference_request dispatch_request wants_stream request_url
    handle_streaming_request run_stream process_lines handle_line absorb absorb_json delta_text
    complete count_request split_newline trim_cr compute_response_attestation decimal
streamed = refl

handle_inference_request-IsSettled_example :
    let o = handle_inference_request env true false plain backend (codes "http://b") 0 zeros in
    IsSettled (codes "r1") false zeros o.messages o.counters
handle_inference_request-IsSettled_example =
    handle_inference_request-IsSettled env true false plain backend (codes "http://b") 0 zeros

handle_streaming_request-relayed_example :
    let h = handle_streaming_request env plain (responded 200 [] (map bytes chunks)) zeros in
    let text = concat chunks in
    (h.sent
      ≡ relayed (codes "r1") (parse_sse_lines text).0
        ++ completion env (final_state env text zeros) ∷ [])
    × (h.stats ≡ (final_state env text zeros).stats)
    × (h.failure ≡ none)
handle_streaming_request-relayed_example =
    handle_streaming_request-relayed env plain 200 [] chunks zeros refl (refl, (refl, tt))

abbrev two_lines : List Text
two_lines = codes "data: x" ∷ codes "data: y" ∷ []

two_lines-IsLine : All IsLine two_lines
unfolding trim_cr
two_lines-IsLine = (
  record { nonempty = λ e. cc; no_newline = omega arith; trimmed = refl },
  (record { nonempty = λ e. cc; no_newline = omega arith; trimmed = refl }, tt),
)

parse_sse_lines-unlines_example :
    ((parse_sse_lines (unlines two_lines (codes "da"))).0 ≡ two_lines)
    × ((parse_sse_lines (unlines two_lines (codes "da"))).1 ≡ codes "da")
parse_sse_lines-unlines_example =
    parse_sse_lines-unlines two_lines (codes "da") two_lines-IsLine (omega arith)
