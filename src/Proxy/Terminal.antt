-- ===== src/Proxy/Terminal.antt =====
-- How a request that is handled ends, and how it is charged.
use d_inference.Prelude.{
  ◌≡◌, refl, sym, ap, ◌∙◌, subst, ◌≢◌, inl, inr, Bool, true, false, not, Option, none, some, List,
  [], ◌∷◌, ◌++◌, if◌then◌else◌, Option-cases, drop, is_empty, All, All-append, Text, codes, text_eq,
  starts_with, ℕ, suc, zero,
}
use d_inference.Json.{JsonApi}
use d_inference.Protocol.{
  ProviderStats, InferenceMessage, inference_accepted, inference_error, inference_response_chunk,
  inference_complete,
}
use d_inference.Proxy.Stream.{
  RequestEnv, StreamState, StreamEvent, bytes, read_error, cancelled, Failure, complete,
  handle_line, process_lines, run_stream, count_request, absorb, data_prefix,
}
use d_inference.Proxy.Lines.{split_newline, trim_cr}
use d_inference.Proxy.Request.{
  Handled, SendOutcome, JsonOutcome, responded, send_failed, send_cancelled, parsed, not_json,
  json_cancelled, read_json, handle_streaming_request, handle_non_streaming_request, is_success,
}
use d_inference.Proxy.Messages.{charge, charge-append, absorb_sent}

-- A chunk of this request.
abbrev pub IsChunk : Text → InferenceMessage → Type 0
IsChunk id (inference_response_chunk i d e) = i ≡ id
IsChunk id (inference_accepted i) = ⊥
IsChunk id (inference_complete i u g h) = ⊥
IsChunk id (inference_error i e c) = ⊥

-- A completion or an error of this request.
abbrev pub IsTerminal : Text → InferenceMessage → Type 0
IsTerminal id (inference_response_chunk i d e) = ⊥
IsTerminal id (inference_accepted i) = ⊥
IsTerminal id (inference_complete i u g h) = i ≡ id
IsTerminal id (inference_error i e c) = i ≡ id

-- Chunks of the request, and then one completion or error of it.
abbrev pub EndsOnce : Text → List InferenceMessage → Type 0
EndsOnce id ms =
    (chunks : List InferenceMessage) × (end : InferenceMessage) × (ms ≡ chunks ++ end ∷ [])
    × All (IsChunk id) chunks
    × IsTerminal id end

-- What holds of a handler's result: without a failure it has ended once, with one it has sent no end;
-- and the counters are charged for the messages.
pub record IsHandled (id : Text) (old : Option ProviderStats) (h : Handled) : Type 0 where
  pub finished : h.failure ≡ none → EndsOnce id h.sent
  pub unfinished : h.failure ≢ none → All (IsChunk id) h.sent
  pub charged : h.stats ≡ charge h.sent old

module _ (env : RequestEnv) (old : Option ProviderStats) where
  open env use {request_id as id}

  -- The invariant of the streaming loop.
  record IsOpen (s : StreamState) : Type 0 where
    chunks_only : All (IsChunk id) s.sent
    charged : s.stats ≡ charge s.sent old

  record IsClosed (s : StreamState) : Type 0 where
    ended : EndsOnce id s.sent
    charged : s.stats ≡ charge s.sent old

  complete-IsClosed : (s : StreamState) → IsOpen s → IsClosed (complete env s)
  unfolding complete
  complete-IsClosed s o = record {
    ended = (s.sent, _, refl, o.chunks_only, refl);
    charged =
        ap (count_request s.completion_tokens) o.charged
        ∙ sym (charge-append s.sent _ old ∙ unfold charge in refl);
  }

  Keeps : StreamState × Bool → Type 0
  Keeps (s, true) = IsClosed s
  Keeps (s, false) = IsOpen s

  Keeps-if : (b : Bool) (x y : StreamState × Bool) → Keeps x → Keeps y → Keeps (if b then x else y)
  Keeps-if true x y hx hy = hx
  Keeps-if false x y hx hy = hy

  relay-IsOpen :
      (line : Text) (s : StreamState)
      → IsOpen s
      → IsOpen (record s { sent = s.sent ++ inference_response_chunk id line none ∷ [] })
  relay-IsOpen line s o = record {
    chunks_only = All-append (IsChunk id) s.sent _ o.chunks_only (refl, tt);
    charged = o.charged ∙ sym (charge-append s.sent _ old ∙ unfold charge in refl);
  }

  absorb-IsOpen : (text : Text) (s : StreamState) → IsOpen s → IsOpen (absorb env.json text s)
  absorb-IsOpen text s o =
      let (sent, stats) = absorb_sent env text s in
      record {
        chunks_only =
            subst (λ (m : List InferenceMessage). All (IsChunk id) m) (sym sent) o.chunks_only;
        charged = stats ∙ o.charged ∙ ap (λ (m : List InferenceMessage). charge m old) (sym sent);
      }

  handle_line-Keeps : (line : Text) (s : StreamState) → IsOpen s → Keeps (handle_line env line s)
  unfolding handle_line Keeps
  handle_line-Keeps line s o = Keeps-if (is_empty line) _ _ o (
      Keeps-if (starts_with line data_prefix) _ _
        (Keeps-if (text_eq (drop 6 line) (codes "[DONE]")) _ _ (complete-IsClosed s o)
          (relay-IsOpen line _ (absorb-IsOpen (drop 6 line) s o)))
        o)

  Keeps-next :
      (p : StreamState × Bool) (f : StreamState → StreamState × Bool)
      → Keeps p
      → ((t : StreamState) → IsOpen t → Keeps (f t))
      → Keeps (elim p.1 [ true ↦ (p.0, true) | false ↦ f p.0 ])
  unfolding Keeps
  Keeps-next (t, true) f k h = k
  Keeps-next (t, false) f k h = h t k

  refill-IsOpen : (text : Text) (s : StreamState) → IsOpen s → IsOpen (record s { buffer = text })
  refill-IsOpen text s o = record { chunks_only = o.chunks_only; charged = o.charged }

  process_lines-Keeps : (fuel : ℕ) (s : StreamState) → IsOpen s → Keeps (process_lines env fuel s)
  unfolding process_lines Keeps
  process_lines-Keeps zero s o = o
  process_lines-Keeps (suc fuel) s o = elim (Option-cases (split_newline s.buffer)) [
    | inl n ↦ rw (n, process_lines) o
    | inr (p, e) ↦
        rw (e, process_lines)
          (Keeps-next (handle_line env (trim_cr p.0) (record s { buffer = p.1 }))
            (process_lines env fuel)
            (handle_line-Keeps (trim_cr p.0) (record s { buffer = p.1 }) (refill-IsOpen p.1 s o))
            (process_lines-Keeps fuel))
  ]

  -- A stream that ends without a failure has sent its completion; one that fails has sent chunks only.
  record Closes (p : StreamState × Option Failure) : Type 0 where
    closed : p.1 ≡ none → EndsOnce id p.0.sent
    broken : p.1 ≢ none → All (IsChunk id) p.0.sent
    charged : p.0.stats ≡ charge p.0.sent old

  Closes-closed : (t : StreamState) → IsClosed t → Closes (t, none)
  Closes-closed t c = record {
    closed = λ _. c.ended;
    broken = λ h. absurd (h refl);
    charged = c.charged;
  }

  Closes-broken : (t : StreamState) (f : Failure) → IsOpen t → Closes (t, some f)
  Closes-broken t f o = record {
    closed = λ h. cc;
    broken = λ _. o.chunks_only;
    charged = o.charged;
  }

  Closes-next :
      (p : StreamState × Bool) (f : StreamState → StreamState × Option Failure)
      → Keeps p
      → ((t : StreamState) → IsOpen t → Closes (f t))
      → Closes (elim p.1 [ true ↦ (p.0, none) | false ↦ f p.0 ])
  unfolding Keeps
  Closes-next (t, true) f k h = Closes-closed t k
  Closes-next (t, false) f k h = h t k

  run_stream-Closes :
      (lossy : Text → Text) (events : List StreamEvent) (s : StreamState)
      → IsOpen s
      → Closes (run_stream env lossy events s)
  unfolding run_stream
  run_stream-Closes lossy [] s o = Closes-closed _ (complete-IsClosed s o)
  run_stream-Closes lossy (cancelled ∷ events) s o = Closes-broken s _ o
  run_stream-Closes lossy (read_error c ∷ events) s o = Closes-broken s _ o
  run_stream-Closes lossy (bytes b ∷ events) s o =
      Closes-next _ (run_stream env lossy events) (process_lines-Keeps _ _ (refill-IsOpen _ s o))
        (run_stream-Closes lossy events)

  start_IsOpen : (s : StreamState) → s.sent ≡ [] → s.stats ≡ old → IsOpen s
  unfolding charge
  start_IsOpen s e q = record { chunks_only = rw e tt; charged = rw e q }

  refused-IsHandled :
      (status : ℕ) (text : Text)
      → IsHandled id old
          (record { sent = inference_error id text status ∷ []; stats = old; failure = none })
  unfolding charge
  refused-IsHandled status text = record {
    finished = λ _. ([], inference_error id text status, refl, tt, refl);
    unfinished = λ h. absurd (h refl);
    charged = refl;
  }

  failed-IsHandled :
      (f : Failure) → IsHandled id old (record { sent = []; stats = old; failure = some f })
  unfolding charge
  failed-IsHandled f = record { finished = λ h. cc; unfinished = λ _. tt; charged = refl }

  stream-IsHandled :
      (p : StreamState × Option Failure)
      → Closes p
      → IsHandled id old (record { sent = p.0.sent; stats = p.0.stats; failure = p.1 })
  stream-IsHandled p c = record { finished = c.closed; unfinished = c.broken; charged = c.charged }

  pub IsHandled-if :
      (b : Bool) (x y : Handled)
      → IsHandled id old x
      → IsHandled id old y
      → IsHandled id old (if b then x else y)
  IsHandled-if true x y hx hy = hx
  IsHandled-if false x y hx hy = hy

  pub handle_streaming_request-IsHandled :
      (lossy : Text → Text) (o : SendOutcome (List StreamEvent))
      → IsHandled id old (handle_streaming_request env lossy o old)
  unfolding handle_streaming_request
  handle_streaming_request-IsHandled lossy (responded status text events) =
      IsHandled-if (not (is_success status)) _ _ (refused-IsHandled status text)
        (stream-IsHandled _ (run_stream-Closes lossy events _ (start_IsOpen _ refl refl)))
  handle_streaming_request-IsHandled lossy (send_failed c) = failed-IsHandled _
  handle_streaming_request-IsHandled lossy send_cancelled = failed-IsHandled _

  read_json-IsHandled :
      (o : JsonOutcome (JsonApi.Value env.json)) → IsHandled id old (read_json env o old)
  unfolding read_json charge
  read_json-IsHandled (parsed v) = record {
    finished = λ _. (_ ∷ [], _, refl, (refl, tt), refl);
    unfinished = λ h. absurd (h refl);
    charged = refl;
  }
  read_json-IsHandled (not_json c) = failed-IsHandled _
  read_json-IsHandled json_cancelled = failed-IsHandled _

  pub handle_non_streaming_request-IsHandled :
      (o : SendOutcome (JsonOutcome (JsonApi.Value env.json)))
      → IsHandled id old (handle_non_streaming_request env o old)
  unfolding handle_non_streaming_request
  handle_non_streaming_request-IsHandled (responded status text body) =
      IsHandled-if (not (is_success status)) _ _ (refused-IsHandled status text)
        (read_json-IsHandled body)
  handle_non_streaming_request-IsHandled (send_failed c) = failed-IsHandled _
  handle_non_streaming_request-IsHandled send_cancelled = failed-IsHandled _
