-- ===== src/Serve/Requests.antt =====
-- The event loop of `cmd_serve` on an inference request: its slot, its engine and its task.
use d_inference.Serve.Tracker.{
  Action, Around, Loop, kill, send_message, track, spawn_request, after_actions,
}
use d_inference.Prelude.{
  Bool, true, false, not, ◌&&◌, ◌||◌, Option, none, some, List, [], ◌∷◌, ◌++◌, ltb, if◌then◌else◌,
  ◌>>=◌, unwrap_or, Text, codes, ℕ, suc,
}
use d_inference.Json.{JsonApi}
use d_inference.Protocol.{inference_accepted, inference_error}
use d_inference.Serve.Slots.{
  Slot, running, find_slot, change_port, set_restarting, set_health, set_reloaded,
}
use d_inference.Serve.Engines.{Engines, get_or_load_inprocess_engine}
use d_inference.Serve.Reload.{Reloaded, ready, not_ready, reload_backend}

-- The hash is refreshed if there is a place for it and it can be computed.
abbrev pub rehash : Option Text → Option (Option Text) → Option (Option Text)
rehash new none = none
rehash none (some old) = some old
rehash (some hash) (some old) = some (some hash)

module _ (json : JsonApi) where
  open json use {Value, get, as_str}

  abbrev pub refuse : Text → Text → ℕ → Action Value
  refuse id message code = send_message (inference_error id message code)

  -- What is known of a request's engine before it is routed: it was refused, or may go on.
  pub data Prepared : Type 0 where
    refused : Loop → List (Action Value) → Prepared
    prepared : Loop → List (Action Value) → Option ℕ → Prepared

  abbrev pub engine_loaded : Text → Around → Slot → Loop → Engines × Option (ℕ × Bool) → Prepared
  engine_loaded id around slot l (engines, some (engine, freshly_loaded)) =
      prepared
        (record l {
          engines = some engines;
          backend_state = running;
          slots = change_port slot.port (set_health true) l.slots;
          model_hash =
              if freshly_loaded then rehash around.weight_hash l.model_hash else l.model_hash;
        })
        [] (some engine)
  engine_loaded id around slot l (engines, none) =
      refused
        (record l {
          engines = some engines;
          slots = change_port slot.port (set_health false) l.slots;
        })
        (refuse id (codes "in-process model load failed") 503 ∷ [])

  -- The part from the lookup of the engines on.
  abbrev pub with_engines : Text → Around → Slot → Loop → Option Engines → Prepared
  with_engines id around slot l none =
      refused l (refuse id (codes "in-process engine support unavailable in this build") 503 ∷ [])
  with_engines id around slot l (some engines) =
      engine_loaded id around slot
        (record l { slots = change_port slot.port (set_restarting true) l.slots })
        (get_or_load_inprocess_engine around.loads slot.model_id engines)

  unfoldable pub prepare_inprocess : Text → Around → Slot → Loop → Prepared
  prepare_inprocess id around slot l = with_engines id around slot l l.engines

  abbrev pub kill_zombie : Option ℕ → List (Action Value)
  kill_zombie none = []
  kill_zombie (some pid) = if ltb 0 pid then kill pid ∷ [] else []

  abbrev pub backend_reloaded : Text → Around → Slot → Loop → Reloaded → Prepared
  backend_reloaded id around slot l (ready new_pid) =
      prepared
        (record l {
          backend_state = running;
          slots = change_port slot.port (set_reloaded new_pid) l.slots;
          model_hash = rehash around.weight_hash l.model_hash;
        })
        (kill_zombie slot.pid) none
  backend_reloaded id around slot l (not_ready e) =
      refused (record l { slots = change_port slot.port (set_restarting false) l.slots })
        (kill_zombie slot.pid ++ refuse id (codes "backend reload failed") 503 ∷ [])

  unfoldable pub prepare_subprocess : Text → Around → Slot → Loop → Prepared
  prepare_subprocess id around slot l =
      let needs_reload = not slot.healthy || not around.healthy in
      if needs_reload && not slot.restarting
      then backend_reloaded id around slot
          (record l { slots = change_port slot.port (set_restarting true) l.slots })
          (reload_backend around.startup).0
      else prepared l [] none

  -- The task is spawned and tracked.
  abbrev pub spawn : Text → Value → Text → Loop → ℕ → Loop × List (Action Value)
  spawn id body key l engine = (
    record l { inflight = track id l.next_task l.inflight; next_task = suc l.next_task },
    spawn_request l.next_task id body key engine ∷ [],
  )

  unfoldable pub route : Bool → Text → Value → Text → Prepared → Loop × List (Action Value)
  route is_inprocess id body key (refused l actions) = (l, actions)
  route is_inprocess id body key (prepared l actions engine) = after_actions actions (
      if not is_inprocess
      then (
        l,
        refuse id
              (codes
                "private text requests require the embedded in-process engine; refusing to proxy through a local backend")
              503
            ∷ [],
      )
      else elim engine [
        | none ↦ (
          l,
          refuse id
                (codes
                  "private text requests require the embedded in-process engine; no engine instance was available")
                503
              ∷ [],
        )
        | some e ↦ spawn id body key l e
      ])

  abbrev pub request_model : Value → Text
  request_model body = unwrap_or (do v ← get body (codes "model"); as_str v) []

  abbrev pub prepare : Bool → Text → Text → Around → Option Slot → Loop → Prepared
  prepare is_inprocess id model around none l =
      refused l (refuse id (codes "no backend slot for model " ++ model) 404 ∷ [])
  prepare is_inprocess id model around (some slot) l =
      if is_inprocess
      then prepare_inprocess id around slot l
      else prepare_subprocess id around slot l

  -- An inference request, with the key that its response is encrypted to.
  unfoldable pub on_request :
      Bool → Text → Value → Option Text → Around → Loop → Loop × List (Action Value)
  unfolding prepare_inprocess prepare_subprocess route
  on_request is_inprocess id body none around l = (
    l,
    refuse id (codes "coordinator text request missing encrypted response session key") 400 ∷ [],
  )
  on_request is_inprocess id body (some key) around l =
      after_actions (send_message (inference_accepted id) ∷ []) (
        route is_inprocess id body key (
          prepare is_inprocess id (request_model body) around
            (find_slot (request_model body) l.slots)
            (record l { last_request_time = around.now; inference_active = true })))
