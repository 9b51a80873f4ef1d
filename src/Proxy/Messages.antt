-- ===== src/Proxy/Messages.antt =====
-- What the coordinator is sent for a streamed response, and how it is charged.
use d_inference.Prelude.{
  ◌≡◌, refl, sym, ap, ◌∙◌, inl, inr, true, false, Option, none, some, List, [], ◌∷◌, ◌++◌,
  append_assoc, arith, if◌then◌else◌, Bool-cases, Option-cases, drop, Text, codes, text_eq,
  starts_with,
}
use d_inference.Protocol.{
  ProviderStats, InferenceMessage, inference_accepted, inference_error, inference_response_chunk,
  inference_complete,
}
use d_inference.Attestation.{compute_response_attestation}
use d_inference.Proxy.Stream.{
  RequestEnv, StreamState, data_prefix, complete, absorb, absorb_json, handle_line, count_request,
}
use d_inference.Proxy.Chunking.{run_lines}
use d_inference.Proxy.Relay.{finish}

-- The data lines before the end marker, each as one chunk message.
unfoldable pub relayed : Text → List Text → List InferenceMessage
relayed id [] = []
relayed id (line ∷ lines) =
    let rest = relayed id lines in
    if starts_with line data_prefix
    then (if text_eq (drop 6 line) (codes "[DONE]")
        then []
        else inference_response_chunk id line none ∷ rest)
    else rest

-- The completion that a final state stands for.
unfoldable pub completion : RequestEnv → StreamState → InferenceMessage
completion env t =
    let (response_hash, se_signature) =
      compute_response_attestation env.crypto env.request_id t.completion_tokens
        t.response_content in
    inference_complete env.request_id
      (record { prompt_tokens = t.prompt_tokens; completion_tokens = t.completion_tokens })
      se_signature (some response_hash)

-- What the counters must show for the messages sent: one request and its tokens for each completion.
unfoldable pub charge : List InferenceMessage → Option ProviderStats → Option ProviderStats
charge [] stats = stats
charge (inference_complete id usage g h ∷ ms) stats =
    charge ms (count_request usage.completion_tokens stats)
charge (inference_accepted id ∷ ms) stats = charge ms stats
charge (inference_response_chunk id d e ∷ ms) stats = charge ms stats
charge (inference_error id e c ∷ ms) stats = charge ms stats

pub charge-append :
    (xs ys : List InferenceMessage) (stats : Option ProviderStats)
    → charge (xs ++ ys) stats ≡ charge ys (charge xs stats)
unfolding charge
charge-append [] ys stats = refl
charge-append (inference_complete id usage g h ∷ xs) ys stats =
    charge-append xs ys (count_request usage.completion_tokens stats)
charge-append (inference_accepted id ∷ xs) ys stats = charge-append xs ys stats
charge-append (inference_response_chunk id d e ∷ xs) ys stats = charge-append xs ys stats
charge-append (inference_error id e c ∷ xs) ys stats = charge-append xs ys stats

module _ (env : RequestEnv) where
  pub complete_sent :
      (s : StreamState)
      → ((complete env s).sent ≡ s.sent ++ completion env (complete env s) ∷ [])
        × ((complete env s).stats ≡ count_request s.completion_tokens s.stats)
  unfolding complete completion
  complete_sent s = (refl, refl)

  pub absorb_sent :
      (text : Text) (s : StreamState)
      → ((absorb env.json text s).sent ≡ s.sent) × ((absorb env.json text s).stats ≡ s.stats)
  unfolding absorb absorb_json
  absorb_sent text s = elim (Option-cases (env.json.from_str text)) [
    | inl n ↦ rw (n, absorb) (refl, refl)
    | inr (v, e) ↦ rw (e, absorb) (refl, refl)
  ]

  line_returned :
      (line : Text) (ls : List Text) (s : StreamState)
      → (handle_line env line s).1 ≡ true
      → ((handle_line env line s).0.sent ≡ s.sent ++ completion env (handle_line env line s).0 ∷ [])
        × (relayed env.request_id (line ∷ ls) ≡ [])
  unfolding handle_line relayed
  line_returned [] ls s h = cc
  line_returned (c ∷ line) ls s h = ground (arith, complete_sent s)

  line_goes_on :
      (line : Text) (ls : List Text) (s : StreamState)
      → (handle_line env line s).1 ≡ false
      → (handle_line env line s).0.sent ++ relayed env.request_id ls
        ≡ s.sent ++ relayed env.request_id (line ∷ ls)
  unfolding handle_line relayed
  line_goes_on [] ls s h = refl
  line_goes_on (c ∷ line) ls s h = ground (
    arith,
    absorb_sent (drop 6 (c ∷ line)) s,
    append_assoc s.sent (inference_response_chunk env.request_id (c ∷ line) none ∷ [])
        (relayed env.request_id ls),
  )

  run_lines_first :
      (line : Text) (ls : List Text) (s : StreamState)
      → (handle_line env line s).1 ≡ true
      → finish env (run_lines env (line ∷ ls) s) ≡ (handle_line env line s).0
  unfolding run_lines finish
  run_lines_first line ls s h = rw (h, run_lines) refl

  run_lines_rest :
      (line : Text) (ls : List Text) (s : StreamState)
      → (handle_line env line s).1 ≡ false
      → run_lines env (line ∷ ls) s ≡ run_lines env ls (handle_line env line s).0
  unfolding run_lines
  run_lines_rest line ls s h = rw (h, run_lines) refl

  -- The messages sent for the lines of a response.
  pub run_lines_sent :
      (ls : List Text) (s : StreamState)
      → (finish env (run_lines env ls s)).sent
        ≡ s.sent
          ++ (relayed env.request_id ls ++ completion env (finish env (run_lines env ls s)) ∷ [])
  run_lines_sent [] s = unfold run_lines finish relayed in (complete_sent s).0
  run_lines_sent (line ∷ ls) s = elim (Bool-cases (handle_line env line s).1) [
    | inl y ↦
        let (sent, none_left) = line_returned line ls s y in
        rw (run_lines_first line ls s y, none_left) sent
    | inr n ↦
        let t = (handle_line env line s).0 in
        let end = completion env (finish env (run_lines env ls t)) ∷ [] in
        rw (run_lines_rest line ls s n) (
          run_lines_sent ls t
          ∙ sym (append_assoc t.sent (relayed env.request_id ls) end)
          ∙ ap (λ (m : List InferenceMessage). m ++ end) (line_goes_on line ls s n)
          ∙ append_assoc s.sent (relayed env.request_id (line ∷ ls)) end)
  ]
