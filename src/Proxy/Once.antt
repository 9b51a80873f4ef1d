-- ===== src/Proxy/Once.antt =====
-- The whole of `handle_inference_request`, and how a request ends.
use d_inference.Prelude.{
  ◌≡◌, refl, sym, ◌∙◌, ◌⊎◌, inl, inr, Bool, true, false, Option, none, some, List, [], ◌∷◌, ◌++◌,
  All, Text,
}
use d_inference.Json.{JsonApi}
use d_inference.Protocol.{ProviderStats, InferenceMessage, inference_error}
use d_inference.Proxy.Stream.{RequestEnv, Failure}
use d_inference.Proxy.Request.{
  Backend, Outcome, dispatch_request, report, handle_inference_request, wants_stream,
}
use d_inference.Proxy.Messages.{charge, charge-append}
use d_inference.Proxy.Terminal.{
  IsChunk, EndsOnce, IsHandled, IsHandled-if, handle_streaming_request-IsHandled,
  handle_non_streaming_request-IsHandled,
}

-- One end, or none if the request was cancelled.
unfoldable pub Ends : Text → Bool → List InferenceMessage → Type 0
Ends id false messages = EndsOnce id messages
Ends id true messages = EndsOnce id messages ⊎ All (IsChunk id) messages

-- The messages end, and the counters are as the messages say.
pub record IsSettled (id : Text) (is_cancelled : Bool) (old : Option ProviderStats)
    (messages : List InferenceMessage) (counters : Option ProviderStats) : Type 0 where
  pub ended : Ends id is_cancelled messages
  pub charged : counters ≡ charge messages old

Ends-once :
    (id : Text) (is_cancelled : Bool) (messages : List InferenceMessage)
    → EndsOnce id messages
    → Ends id is_cancelled messages
unfolding Ends
Ends-once id false messages h = h
Ends-once id true messages h = inl h

module _ (env : RequestEnv) (old : Option ProviderStats) where
  open env use {request_id as id}

  dispatch_request-IsHandled :
      (lossy : Text → Text) (backend : Backend (JsonApi.Value env.json)) (backend_url : Text)
      (body : JsonApi.Value env.json)
      → IsHandled id old (dispatch_request env lossy backend backend_url body old)
  unfolding dispatch_request
  dispatch_request-IsHandled lossy backend backend_url body =
      IsHandled-if env old (wants_stream env.json body) _ _
        (handle_streaming_request-IsHandled env old lossy _)
        (handle_non_streaming_request-IsHandled env old _)

  report_ok :
      (is_cancelled : Bool) (sent : List InferenceMessage) (stats : Option ProviderStats)
      → IsHandled id old (record { sent = sent; stats = stats; failure = none })
      → IsSettled id is_cancelled old sent stats
  report_ok is_cancelled sent stats h = record {
    ended = Ends-once id is_cancelled sent (h.finished refl);
    charged = h.charged;
  }

  report_failed :
      (sent : List InferenceMessage) (stats : Option ProviderStats) (f : Failure)
      → IsHandled id old (record { sent = sent; stats = stats; failure = some f })
      → IsSettled id false old (sent ++ inference_error id f.message 500 ∷ []) stats
  unfolding charge Ends
  report_failed sent stats f h = record {
    ended = (sent, inference_error id f.message 500, refl, h.unfinished (λ e. cc), refl);
    charged = h.charged ∙ sym (charge-append sent (inference_error id f.message 500 ∷ []) old);
  }

  report_cancelled :
      (sent : List InferenceMessage) (stats : Option ProviderStats) (f : Failure)
      → IsHandled id old (record { sent = sent; stats = stats; failure = some f })
      → IsSettled id true old sent stats
  unfolding Ends
  report_cancelled sent stats f h = record {
    ended = inr (h.unfinished (λ e. cc));
    charged = h.charged;
  }

  Settles : Bool → Outcome env → Type 0
  Settles is_cancelled o = IsSettled id is_cancelled old o.messages o.counters

  report-IsSettled :
      (is_cancelled : Bool) (sent : List InferenceMessage) (stats : Option ProviderStats)
      (failure : Option Failure)
      → IsHandled id old (record { sent = sent; stats = stats; failure = failure })
      → Settles is_cancelled
          (report env is_cancelled (record { sent = sent; stats = stats; failure = failure }))
  unfolding report Settles
  report-IsSettled c sent stats none h = report_ok c sent stats h
  report-IsSettled true sent stats (some f) h = report_cancelled sent stats f h
  report-IsSettled false sent stats (some f) h = report_failed sent stats f h

-- Whatever the backend answers and whenever the request is cancelled: unless it is cancelled, the
-- coordinator is sent chunks of the request and then exactly one completion or error of it; if it is
-- cancelled, the same or chunks only. The counters grow by one request and by the completion's tokens
-- for a completion that was sent, and not otherwise.
pub handle_inference_request-IsSettled :
    (env : RequestEnv) (sip_enabled is_cancelled : Bool) (lossy : Text → Text)
    (backend : Backend (JsonApi.Value env.json)) (backend_url : Text)
    (body : JsonApi.Value env.json) (stats : Option ProviderStats)
    → let o =
        handle_inference_request env sip_enabled is_cancelled lossy backend backend_url body
          stats in
      IsSettled env.request_id is_cancelled stats o.messages o.counters
unfolding handle_inference_request charge Settles
handle_inference_request-IsSettled env false c lossy backend backend_url body stats = record {
  ended = Ends-once env.request_id c _ ([], _, refl, tt, refl);
  charged = refl;
}
handle_inference_request-IsSettled env true c lossy backend backend_url body stats =
    let h = dispatch_request env lossy backend backend_url body stats in
    report-IsSettled env stats c h.sent h.stats h.failure
      (dispatch_request-IsHandled env stats lossy backend backend_url body)
