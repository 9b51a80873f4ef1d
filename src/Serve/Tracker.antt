-- ===== src/Serve/Tracker.antt =====
-- The state of the event loop of `cmd_serve`, and its tracker of the requests in flight.
use d_inference.Prelude.{
  Bool, false, Option, none, some, List, [], ◌∷◌, ◌++◌, if◌then◌else◌, is_empty, Text, text_eq, ℕ,
}
use d_inference.Protocol.{InferenceMessage}
use d_inference.Coordinator.Session.{CoordinatorEvent}
use d_inference.Serve.Slots.{Slot, BackendState}
use d_inference.Serve.Engines.{Engines}
use d_inference.Serve.Reload.{Startup}

-- The requests in flight, with the tasks that run them; tasks are numbered as they are spawned.
abbrev pub Inflight : Type 0
Inflight = List (Text × ℕ)

abbrev pub find_task : Text → Inflight → Option ℕ
find_task id [] = none
find_task id ((j, task) ∷ rest) =
    let found = find_task id rest in if text_eq id j then some task else found

unfoldable pub untrack : Text → Inflight → Inflight
untrack id [] = []
untrack id ((j, task) ∷ rest) =
    let kept = untrack id rest in if text_eq id j then kept else (j, task) ∷ kept

-- `inflight.insert(id, task)`
abbrev pub track : Text → ℕ → Inflight → Inflight
track id task inflight = (id, task) ∷ untrack id inflight

pub record Loop : Type 0 where
  pub inflight : Inflight
  pub inference_active : Bool
  pub backend_state : BackendState
  pub slots : List Slot
  pub engines : Option Engines
  pub model_hash : Option (Option Text)
  pub last_request_time : ℕ
  pub self_heal_running : Bool
  pub next_task : ℕ

-- What a request meets: the time, whether an engine loads, the hash of the model's weights, and what a
-- backend process answers.
pub record Around : Type 0 where
  pub now : ℕ
  pub loads : Bool
  pub weight_hash : Option Text
  pub healthy : Bool
  pub startup : Startup

-- What the loop does to the outside. A request is spawned with its task, its id, its body, its response
-- key and its engine.
pub data Action (Value : Type 0) : Type 0 where
  send_message : InferenceMessage → Action Value
  spawn_request : ℕ → Text → Value → Text → ℕ → Action Value
  cancel_token : ℕ → Action Value
  abort : ℕ → Action Value
  kill : ℕ → Action Value
  start_self_heal : Action Value
  shutdown_backends : Action Value

-- `select!` meets an event of the coordinator, the end of a task, the idle timeout or the end of a
-- self-heal; or the loop of the schedule, beside it, sees its window close. At the idle timeout and at
-- the closing, which engines unload.
pub data LoopEvent (Value : Type 0) : Type 0 where
  from_coordinator : CoordinatorEvent Value → Around → LoopEvent Value
  task_done : Text → Bool → LoopEvent Value
  idle_elapsed : (ℕ → Bool) → LoopEvent Value
  healed : LoopEvent Value
  window_closed : (ℕ → Bool) → LoopEvent Value

-- A request is taken off the tracker.
abbrev pub forget : Text → Loop → Loop
forget id l =
    let rest = untrack id l.inflight in
    record l {
      inflight = rest;
      inference_active = if is_empty rest then false else l.inference_active;
    }

-- `inflight.remove(&rid)` of an entry that may be there, and the flag.
abbrev pub forget_found : Option ℕ → Text → Loop → Loop
forget_found none rid l = l
forget_found (some task) rid l = forget rid l

abbrev pub after_actions :
    {A : Type 0} → List (Action A) → Loop × List (Action A) → Loop × List (Action A)
after_actions actions (l, more) = (l, actions ++ more)
