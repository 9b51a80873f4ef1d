-- ===== src/Coordinator/Session.antt =====
-- `CoordinatorClient::connect_and_run` after the connection is made and registered: the select loop.
-- The contents of heartbeats and of challenge answers are built by other functions.
use d_inference.Prelude.{
  Bool, true, false, Option, none, some, List, [], ◌∷◌, ◌++◌, ltb, if◌then◌else◌, Text, codes, ℕ,
  ◌-◌,
}
use d_inference.Protocol.{
  RuntimeMismatch, CoordinatorMessage, inference_request, cancel, attestation_challenge,
  runtime_status, InferenceMessage, inference_error,
}
use d_inference.Coordinator.Decrypt.{Opening, Decrypted, opened, rejected, decrypt_request_body}

-- `CoordinatorEvent`: what the main loop is told.
pub data CoordinatorEvent (Value : Type 0) : Type 0 where
  connected : CoordinatorEvent Value
  disconnected : CoordinatorEvent Value
  request : Text → Value → Option Text → CoordinatorEvent Value
  cancel_request : Text → CoordinatorEvent Value
  challenged : Text → Text → CoordinatorEvent Value
  runtime_outdated : List RuntimeMismatch → CoordinatorEvent Value

-- A WebSocket frame; a text frame holds a coordinator message if it can be parsed.
pub data Frame (Value : Type 0) : Type 0 where
  text : Option (CoordinatorMessage Value) → Frame Value
  ping : Text → Frame Value
  pong : Frame Value
  close : Frame Value
  other : Frame Value

-- What a round of `select!` meets. The flag says whether the write that follows succeeds.
pub data SessionEvent (Value : Type 0) : Type 0 where
  shutdown : SessionEvent Value
  ping_tick : Bool → SessionEvent Value
  heartbeat_tick : Bool → SessionEvent Value
  outbound : Option InferenceMessage → Bool → SessionEvent Value
  received : Frame Value → SessionEvent Value
  read_failed : SessionEvent Value
  stream_ended : SessionEvent Value

-- A round: when the pong timeout is checked, when the event comes, in milliseconds, and the event.
pub record Round (Value : Type 0) : Type 0 where
  pub checked : ℕ
  pub at : ℕ
  pub event : SessionEvent Value

pub data Output (Value : Type 0) : Type 0 where
  write_ping : Output Value
  write_pong : Text → Output Value
  write_heartbeat : Output Value
  write_message : InferenceMessage → Output Value
  write_challenge_answer : Text → Text → Output Value
  write_close : Output Value
  deliver : CoordinatorEvent Value → Output Value

pub data Next : Type 0 where
  go_on : Next
  pong_seen : Next
  return_ok : Next
  bail : Next

-- In milliseconds.
abbrev pub pong_timeout : ℕ
pong_timeout = 30000

module _ {Value : Type 0} (o : Opening Value) where
  abbrev pub hand_on : Text → Decrypted Value → List (Output Value)
  hand_on id (opened body key) = deliver (request id body (some key)) ∷ []
  hand_on id (rejected e) = []

  -- A parsed message of the coordinator.
  unfoldable pub handle_message : CoordinatorMessage Value → List (Output Value)
  handle_message (inference_request id body none) =
      write_message
        (inference_error id (codes "coordinator text request missing encrypted body") 400)
      ∷ []
  handle_message (inference_request id body (some enc)) = hand_on id (decrypt_request_body o enc)
  handle_message (cancel id) = deliver (cancel_request id) ∷ []
  handle_message (attestation_challenge nonce timestamp) =
      write_challenge_answer nonce timestamp ∷ []
  handle_message (runtime_status true mismatches) = []
  handle_message (runtime_status false mismatches) = deliver (runtime_outdated mismatches) ∷ []

  unfoldable pub handle_frame : Frame Value → List (Output Value) × Next
  unfolding handle_message
  handle_frame (text none) = ([], go_on)
  handle_frame (text (some m)) = (handle_message m, go_on)
  handle_frame (ping payload) = (write_pong payload ∷ [], go_on)
  handle_frame pong = ([], pong_seen)
  handle_frame close = ([], bail)
  handle_frame other = ([], go_on)

  -- A write that fails with `?` or `bail!` ends the session.
  abbrev pub written : Bool → Output Value → List (Output Value) × Next
  written true out = (out ∷ [], go_on)
  written false out = ([], bail)

  unfoldable pub handle_event : SessionEvent Value → List (Output Value) × Next
  unfolding handle_frame
  handle_event shutdown = (write_close ∷ [], return_ok)
  handle_event (ping_tick sent) = written sent write_ping
  handle_event (heartbeat_tick sent) = written sent write_heartbeat
  handle_event (outbound none sent) = (write_close ∷ [], return_ok)
  handle_event (outbound (some message) sent) = written sent (write_message message)
  handle_event (received frame) = handle_frame frame
  handle_event read_failed = ([], bail)
  handle_event stream_ended = ([], bail)

  -- The outputs, and how the session ended, unless the rounds are used up before.
  pub record Trace : Type 0 where
    pub outputs : List (Output Value)
    pub ended : Option Bool

  abbrev pub also : List (Output Value) → Trace → Trace
  also out t = record { outputs = out ++ t.outputs; ended = t.ended }

  unfoldable pub session : ℕ → List (Round Value) → Trace
  session last_pong [] = record { outputs = []; ended = none }
  session last_pong (r ∷ rounds) =
      let (out, next) = handle_event r.event in
      let rest = session last_pong rounds in
      let renewed = session r.at rounds in
      if ltb pong_timeout (r.checked - last_pong)
      then record { outputs = []; ended = some false }
      else elim next [
        | go_on ↦ also out rest
        | pong_seen ↦ also out renewed
        | return_ok ↦ record { outputs = out; ended = some true }
        | bail ↦ record { outputs = out; ended = some false }
      ]

  -- The registered session, which begins by telling the main loop.
  unfoldable pub connected_session : ℕ → List (Round Value) → Trace
  unfolding session
  connected_session started rounds = also (deliver connected ∷ []) (session started rounds)
