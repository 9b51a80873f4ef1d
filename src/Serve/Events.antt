-- ===== src/Serve/Events.antt =====
-- The event loop of `cmd_serve`: the events of the coordinator, ended tasks, the idle timeout and the
-- closing of a schedule's window.
use d_inference.Serve.Requests.{on_request}
use d_inference.Serve.Tracker.{
  healed, window_closed, from_coordinator, task_done, idle_elapsed, Inflight, Loop, Action, Around,
  LoopEvent, cancel_token, find_task, forget_found, shutdown_backends, start_self_heal, abort,
  forget, task_done, idle_elapsed, from_coordinator, after_actions,
}
use d_inference.Prelude.{
  Bool, true, false, ◌&&◌, Option, none, some, List, [], ◌∷◌, map, if◌then◌else◌, is_empty, Text, ℕ,
}
use d_inference.Json.{JsonApi}
use d_inference.Coordinator.Session.{
  CoordinatorEvent, connected, disconnected, request, cancel_request, challenged, runtime_outdated,
}
use d_inference.Serve.Slots.{Slot, idle_shutdown, crashed, is_running, set_health}
use d_inference.Serve.Engines.{Engines, unload_inprocess_engines}

abbrev pub mark_idle : List Slot → List Slot
mark_idle = map (set_health false)

module _ (json : JsonApi) where
  open json use {Value, get, as_str}

  abbrev pub cancel_and_abort : Inflight → List (Action Value)
  cancel_and_abort [] = []
  cancel_and_abort ((id, task) ∷ rest) = cancel_token task ∷ abort task ∷ cancel_and_abort rest

  unfoldable pub on_disconnected : Loop → Loop × List (Action Value)
  on_disconnected l =
      if is_empty l.inflight
      then (l, [])
      else (record l { inflight = []; inference_active = false }, cancel_and_abort l.inflight)

  unfoldable pub on_cancel : Text → Loop → Loop × List (Action Value)
  on_cancel id l = elim (find_task id l.inflight) [
    | none ↦ (l, [])
    | some task ↦ (forget id l, cancel_token task ∷ [])
  ]

  unfoldable pub on_outdated : Loop → Loop × List (Action Value)
  on_outdated l =
      if l.self_heal_running
      then (l, [])
      else (record l { self_heal_running = true }, start_self_heal ∷ [])

  unfoldable pub on_coordinator :
      Bool → CoordinatorEvent Value → Around → Loop → Loop × List (Action Value)
  unfolding on_request on_disconnected on_cancel on_outdated
  on_coordinator b connected around l = (l, [])
  on_coordinator b disconnected around l = on_disconnected l
  on_coordinator b (request id body key) around l = on_request json b id body key around l
  on_coordinator b (cancel_request id) around l = on_cancel id l
  on_coordinator b (challenged nonce timestamp) around l = (l, [])
  on_coordinator b (runtime_outdated mismatches) around l = on_outdated l

  unfoldable pub on_done : Text → Bool → Loop → Loop × List (Action Value)
  on_done rid backend_dead l =
      let l' = forget_found (find_task rid l.inflight) rid l in
      (
        if backend_dead && is_running l'.backend_state
            then record l' { backend_state = crashed }
            else l',
        [],
      )

  -- The timer runs only while a timeout is set, the backend is running and nothing is in flight.
  unfoldable pub may_idle : Option ℕ → Loop → Bool
  may_idle none l = false
  may_idle (some timeout) l = is_running l.backend_state && is_empty l.inflight

  abbrev pub unload : (ℕ → Bool) → Option Engines → Option Engines
  unload unloads none = none
  unload unloads (some e) = some (unload_inprocess_engines unloads e)

  unfoldable pub on_idle : Bool → (ℕ → Bool) → Loop → Loop × List (Action Value)
  on_idle is_inprocess unloads l =
      if is_inprocess
      then (
        record l {
          engines = unload unloads l.engines;
          slots = mark_idle l.slots;
          backend_state = idle_shutdown;
        },
        [],
      )
      else (record l { backend_state = idle_shutdown }, shutdown_backends ∷ [])

  -- The schedule's loop touches the engines only, whatever is in flight.
  unfoldable pub on_window_closed : Bool → (ℕ → Bool) → Loop → Loop × List (Action Value)
  on_window_closed is_inprocess unloads l =
      if is_inprocess
      then (record l { engines = unload unloads l.engines }, [])
      else (l, shutdown_backends ∷ [])

  unfoldable pub step : Bool → Option ℕ → LoopEvent Value → Loop → Loop × List (Action Value)
  unfolding on_coordinator on_done on_idle on_window_closed
  step b idle_timeout (from_coordinator event around) l = on_coordinator b event around l
  step b idle_timeout (task_done rid dead) l = on_done rid dead l
  step b idle_timeout (idle_elapsed unloads) l =
      if may_idle idle_timeout l then on_idle b unloads l else (l, [])
  step b idle_timeout healed l = (record l { self_heal_running = false }, [])
  step b idle_timeout (window_closed unloads) l = on_window_closed b unloads l

  unfoldable pub run_loop :
      Bool → Option ℕ → List (LoopEvent Value) → Loop → Loop × List (Action Value)
  unfolding step
  run_loop b idle_timeout [] l = (l, [])
  run_loop b idle_timeout (e ∷ events) l =
      let (l', actions) = step b idle_timeout e l in
      after_actions actions (run_loop b idle_timeout events l')
