-- ===== src/Serve/Running.antt =====
-- The invariant of the event loop's tracker through every step.
use d_inference.Serve.Engines.{unload_inprocess_engines, Engines}
use d_inference.Prelude.{
  ◌≡◌, refl, inl, inr, Bool, true, false, ◌&&◌, Option, none, some, List, [], ◌∷◌, ◌++◌, arith,
  Bool-cases, is_empty, ℕ,
}
use d_inference.Json.{JsonApi}
use d_inference.Serve.Slots.{is_running}
use d_inference.Serve.Prepared.{CacheLoaded}
use d_inference.Serve.Tracker.{
  Inflight, Loop, shutdown_backends, LoopEvent, from_coordinator, task_done, idle_elapsed, healed,
  window_closed,
}
use d_inference.Serve.Events.{step, run_loop, on_idle, on_window_closed, may_idle, unload}
use d_inference.Serve.Tracked.{tasks, IsTracked, Follows, quiet-Follows}
use d_inference.Serve.Branches.{emptied-IsTracked, on_coordinator-Follows, on_done-Follows}

module _ (json : JsonApi) where
  open json use {Value}

  unload-CacheLoaded :
      (unloads : ℕ → Bool) (o : Option Engines) → CacheLoaded (unload json unloads o)
  unfolding unload_inprocess_engines
  unload-CacheLoaded unloads none = tt
  unload-CacheLoaded unloads (some e) = λ id n no'. absurd (ground (arith, no'))

  on_idle-Follows :
      (b : Bool) (unloads : ℕ → Bool) (l : Loop) (spawned : List (ℕ × ℕ))
      → l.inflight ≡ []
      → IsTracked l spawned
      → Follows spawned (on_idle json b unloads l)
  unfolding on_idle
  on_idle-Follows true unloads l spawned none' h =
      quiet-Follows {V = Value} spawned _ [] refl
        (emptied-IsTracked json l _ spawned h none' refl (unload-CacheLoaded unloads l.engines))
  on_idle-Follows false unloads l spawned none' h =
      quiet-Follows {V = Value} spawned _ (shutdown_backends ∷ []) refl
        (emptied-IsTracked json l _ spawned h none' refl h.cached)

  may_idle-inflight :
      (timeout : Option ℕ) (l : Loop) → may_idle json timeout l ≡ true → l.inflight ≡ []
  unfolding may_idle
  may_idle-inflight none l e = absurd (ground (arith, e))
  may_idle-inflight (some timeout) l e = from_test (is_running l.backend_state) l.inflight e
    where
      from_test : (b : Bool) (xs : Inflight) → b && is_empty xs ≡ true → xs ≡ []
      from_test true [] e' = refl
      from_test true (x ∷ xs) e' = absurd (ground (arith, e'))
      from_test false xs e' = absurd (ground (arith, e'))

  on_window_closed-Follows :
      (b : Bool) (unloads : ℕ → Bool) (l : Loop) (spawned : List (ℕ × ℕ))
      → IsTracked l spawned
      → Follows [] (on_window_closed json b unloads l)
  unfolding on_window_closed
  on_window_closed-Follows true unloads l spawned h = record {
    serving = h.serving;
    fresh = h.fresh;
    held = tt;
    cached = unload-CacheLoaded unloads l.engines;
  }
  on_window_closed-Follows false unloads l spawned h = record {
    serving = h.serving;
    fresh = h.fresh;
    held = tt;
    cached = h.cached;
  }

  -- The tasks whose engines the event may not unload.
  abbrev spared : LoopEvent Value → List (ℕ × ℕ) → List (ℕ × ℕ)
  spared (from_coordinator event around) spawned = spawned
  spared (task_done id dead) spawned = spawned
  spared (idle_elapsed unloads) spawned = spawned
  spared healed spawned = spawned
  spared (window_closed unloads) spawned = []

  -- The tasks, with their engines, that were spawned since a window closed last, or at all.
  abbrev pub spawned_since_closing :
      Bool → Option ℕ → List (LoopEvent Value) → Loop → List (ℕ × ℕ) → List (ℕ × ℕ)
  spawned_since_closing b timeout [] l spawned = spawned
  spawned_since_closing b timeout (e ∷ events) l spawned =
      let (l', actions) = step json b timeout e l in
      spawned_since_closing b timeout events l' (spared e spawned ++ tasks actions)

  step-Follows :
      (b : Bool) (timeout : Option ℕ) (event : LoopEvent Value) (l : Loop) (spawned : List (ℕ × ℕ))
      → IsTracked l spawned
      → Follows (spared event spawned) (step json b timeout event l)
  unfolding step
  step-Follows b timeout (from_coordinator event around) l spawned h =
      on_coordinator-Follows json b event around l spawned h
  step-Follows b timeout (task_done id dead) l spawned h = on_done-Follows json id dead l spawned h
  step-Follows b timeout (idle_elapsed unloads) l spawned h =
      elim (Bool-cases (may_idle json timeout l)) [
        | inl y ↦
            rw (y, step) (on_idle-Follows b unloads l spawned (may_idle-inflight timeout l y) h)
        | inr n ↦ rw (n, step) (quiet-Follows {V = Value} spawned l [] refl h)
      ]
  step-Follows b timeout healed l spawned h =
      quiet-Follows {V = Value} spawned (record l { self_heal_running = false }) [] refl
        (record { serving = h.serving; fresh = h.fresh; held = h.held; cached = h.cached })
  step-Follows b timeout (window_closed unloads) l spawned h =
      on_window_closed-Follows b unloads l spawned h

  -- Every sequence of events leaves the tracker consistent: while a request is in flight the loop says
  -- that it is serving; the cache holds loaded engines only; and the engine of every task that was
  -- spawned since a window of the schedule closed last is loaded for as long as the task is tracked,
  -- whatever else loads, fails, ends, is cancelled or idles in between. Nothing is said of the engines
  -- of the tasks that were in flight when a window closed. The loop starts with a consistent tracker
  -- and the tasks that were spawned before, which count until a window closes.
  pub run_loop-IsTracked :
      (b : Bool) (timeout : Option ℕ) (events : List (LoopEvent Value)) (l : Loop)
      (spawned : List (ℕ × ℕ))
      → IsTracked l spawned
      → IsTracked
          (run_loop json b timeout events l).0
          (spawned_since_closing b timeout events l spawned)
  unfolding run_loop
  run_loop-IsTracked b timeout [] l spawned h = h
  run_loop-IsTracked b timeout (e ∷ events) l spawned h =
      let first = step json b timeout e l in
      run_loop-IsTracked b timeout events first.0 (spared e spawned ++ tasks first.1)
        (step-Follows b timeout e l spawned h)
