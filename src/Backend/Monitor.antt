-- ===== src/Backend/Monitor.antt =====
-- The health monitor that `BackendManager::start` spawns.
use d_inference.Prelude.{
  Bool, true, false, Option, none, some, List, [], ◌∷◌, ◌++◌, if◌then◌else◌, ℕ,
}
use d_inference.Backend.Backoff.{ExponentialBackoff, new, next_delay, reset}

-- What wakes the loop: the shutdown signal, or the interval with the backend's answers to `health`,
-- `stop` and `start`, of which the last two are asked only of an unhealthy backend.
pub data MonitorEvent : Type 0 where
  shutdown : MonitorEvent
  interval : Bool → Bool → Bool → MonitorEvent

-- What the loop does to the outside.
pub data MonitorAction : Type 0 where
  report_crash : MonitorAction
  sleep : ℕ → MonitorAction
  stop_backend : Bool → MonitorAction
  start_backend : Bool → MonitorAction
  report_restart_error : MonitorAction

-- One unhealthy interval; a failing `stop` is only logged.
unfoldable pub restart : Bool → Bool → ExponentialBackoff → List MonitorAction × ExponentialBackoff
restart stopped started backoff =
    let (delay, next) = next_delay backoff in
    if started
    then (report_crash ∷ sleep delay ∷ stop_backend stopped ∷ start_backend true ∷ [], reset next)
    else (
      report_crash
          ∷ sleep delay
          ∷ stop_backend stopped
          ∷ start_backend false
          ∷ report_restart_error
          ∷ [],
      next,
    )

unfoldable pub monitor : List MonitorEvent → ExponentialBackoff → List MonitorAction
monitor [] backoff = []
monitor (shutdown ∷ events) backoff = []
monitor (interval true stopped started ∷ events) backoff = monitor events (reset backoff)
monitor (interval false stopped started ∷ events) backoff =
    let (actions, backoff') = restart stopped started backoff in actions ++ monitor events backoff'

-- `BackendManager::start`: without a first start there is no monitor.
unfoldable pub start : Bool → List MonitorEvent → Option (List MonitorAction)
unfolding monitor new
start false events = none
start true events = some (monitor events new)
