-- ===== src/Backend/Examples.antt =====
-- The supervision of a backend at inputs.
use d_inference.Prelude.{◌≡◌, refl, Bool, true, false, none, some, List, [], ◌∷◌, codes}
use d_inference.Json.{JsonApi}
use d_inference.Backend.Backoff.{next_delay, reset}
use d_inference.Backend.Monitor.{
  MonitorEvent, shutdown, interval, report_crash, sleep, stop_backend, start_backend,
  report_restart_error, restart, start,
}
use d_inference.Backend.Restarts.{supervise, start-supervise}
use d_inference.Backend.Probe.{Answers, check_model_loaded, explicit_loaded}

abbrev two_failures : List MonitorEvent
two_failures =
    interval false true false ∷ interval false true true ∷ interval false true true ∷ shutdown ∷ []

two_failures_run :
    start true two_failures
    ≡ some (
        report_crash
        ∷ sleep 1
        ∷ stop_backend true
        ∷ start_backend false
        ∷ report_restart_error
        ∷ report_crash
        ∷ sleep 2
        ∷ stop_backend true
        ∷ start_backend true
        ∷ report_crash
        ∷ sleep 1
        ∷ stop_backend true
        ∷ start_backend true
        ∷ [])
unfolding start restart next_delay reset
two_failures_run = refl

start-supervise_example : start true two_failures ≡ some (supervise 0 two_failures)
start-supervise_example = start-supervise two_failures

abbrev flags : JsonApi
flags = record {
  Value = Bool;
  from_str = λ s. none;
  to_string = λ v. [];
  get = λ v key. some v;
  as_bool = λ v. some v;
  as_u64 = λ v. none;
  as_str = λ v. none;
  as_array = λ v. none;
}

abbrev loading : Answers Bool
loading url = some (200, some false)

loading_not_loaded : check_model_loaded flags loading (codes "u") ≡ false
unfolding check_model_loaded explicit_loaded
loading_not_loaded = refl

abbrev loaded : Answers Bool
loaded url = some (200, some true)

loaded_is_loaded : check_model_loaded flags loaded (codes "u") ≡ true
unfolding check_model_loaded explicit_loaded
loaded_is_loaded = refl
