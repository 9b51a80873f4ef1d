-- ===== src/Serve/Examples.antt =====
-- One request on the embedded engine, and the event loop around it.
use d_inference.Coordinator.StatusMap.{insert}
use d_inference.Prelude.{
  decimal, ◌≡◌, refl, ◌↔◌, true, false, ◌&&◌, Option, none, some, List, [], ◌∷◌, arith, ◌==◌,
  if◌then◌else◌, Text, codes, text_eq, ℕ, ◌≤◌, ◌*◌, ◌+◌,
}
use d_inference.Json.{JsonApi}
use d_inference.Protocol.{ProviderStats, inference_response_chunk, inference_complete}
use d_inference.Attestation.{compute_response_attestation}
use d_inference.Proxy.Stream.{count_request}
use d_inference.Proxy.Request.{wants_stream}
use d_inference.Serve.Inprocess.{Engine, finished, InprocessEnv, handle_inprocess_request}
use d_inference.Serve.Sends.{IsAnswered}
use d_inference.Serve.Sealing.{handle_inprocess_request-IsAnswered}
use d_inference.Serve.Streamed.{handle_inprocess_request-streamed}
use d_inference.Serve.Slots.{Slot, BackendState, find_slot, change_port, serves}
use d_inference.Serve.Engines.{Engines, get_or_load_inprocess_engine, unload_inprocess_engines}
use d_inference.Serve.Loaded.{AllLoaded}
use d_inference.Serve.Reload.{poll, Startup, ready, reload_backend}
use d_inference.Serve.Monitor.{Watched, Answer, monitor_round, check_slots, check_slot}
use d_inference.Serve.Paced.{check_rounds, check_rounds_paced}
use d_inference.Serve.Reloading.{StartsUp, reload_backend-ready}
use d_inference.Serve.Tracker.{
  Loop, LoopEvent, Around, from_coordinator, task_done, idle_elapsed, window_closed, untrack,
}
use d_inference.Serve.Requests.{on_request}
use d_inference.Serve.Replies.{IsReplied, on_request-IsReplied}
use d_inference.Serve.Tracked.{IsTracked, tasks}
use d_inference.Serve.Events.{step, run_loop, may_idle, on_window_closed}
use d_inference.Serve.Running.{run_loop-IsTracked, spawned_since_closing}
use d_inference.Coordinator.Session.{request, cancel_request}

-- Value 0 is a request for a stream of the model "m".
abbrev json : JsonApi
json = record {
  Value = ℕ;
  from_str = λ s. none;
  to_string = λ v. [];
  get = λ v key.
      if v == 0 && text_eq key (codes "stream")
      then some 6
      else if v == 0 && text_eq key (codes "model")
      then some 5
      else none;
  as_bool = λ v. if v == 6 then some true else none;
  as_u64 = λ v. none;
  as_str = λ v. if v == 5 then some (codes "m") else none;
  as_array = λ v. none;
}

abbrev cipher : ℕ → Text → Text
cipher n p = n ∷ p

abbrev env : InprocessEnv
env = record {
  json = json;
  crypto = record { sha256_hex = λ s. s; se_handle = none };
  sealing = record {
    encrypt = λ n k p. some (cipher n p);
    public_key_base64 = codes "pk";
    encode = λ s. s;
  };
  request_id = codes "r1";
  response_public_key = codes "k";
}

abbrev engine : Engine ℕ
engine = record { stream = λ v. (codes "hi" ∷ [], finished 3 1); generate = λ v. none }

abbrev zeros : Option ProviderStats
zeros = some (record { requests_served = 0; tokens_generated = 0 })

handle_inprocess_request-IsAnswered_example :
    IsAnswered env
      (some 1)
      zeros
      (handle_inprocess_request env true engine 0 (record { sent = []; takes = some 1 }) zeros)
handle_inprocess_request-IsAnswered_example =
    handle_inprocess_request-IsAnswered env (some 1) zeros true engine 0

handle_inprocess_request-streamed_example :
    handle_inprocess_request env true engine 0 (record { sent = []; takes = none }) zeros ≡ (
      record {
        sent =
            inference_response_chunk (codes "r1") [] (
              some
                (record { ephemeral_public_key = codes "pk"; ciphertext = cipher 0 (codes "hi") }))
            ∷ inference_response_chunk (codes "r1") [] (
                some (record {
                  ephemeral_public_key = codes "pk";
                  ciphertext = cipher 1 (codes "data: [DONE]");
                }))
            ∷ inference_complete
                (codes "r1")
                (record { prompt_tokens = 3; completion_tokens = 1 })
                none
                (some (codes "r1:1:hi"))
            ∷ [];
        takes = none;
      },
      some (record { requests_served = 1; tokens_generated = 1 }),
    )
unfolding decimal compute_response_attestation count_request wants_stream
handle_inprocess_request-streamed_example =
    handle_inprocess_request-streamed env cipher (λ n p. refl) engine 0 (codes "hi" ∷ []) 3 1 zeros
      refl refl (omega arith)

abbrev startup : Startup
startup = record {
  spawned = some 77;
  healthy = λ i. i == 3;
  model_loaded = λ i. i == 0;
  warms_up = λ i. i == 4;
}

reload_backend-ready_example :
    ((reload_backend startup).1 ≤ 620)
    × (((reload_backend startup).0 ≡ ready 77) ↔ StartsUp startup (some 77) 77)
reload_backend-ready_example = reload_backend-ready startup 77

abbrev slot : Slot
slot = record {
  model_id = codes "m";
  model_path = codes "/m";
  port = 8000;
  pid = none;
  healthy = true;
  restarting = false;
}

abbrev no_engines : Engines
no_engines = record { cache = []; is_loaded = λ n. false; next = 0 }

abbrev around : Around
around = record { now = 5; loads = true; weight_hash = none; healthy = true; startup = startup }

abbrev idle : Loop
idle = record {
  inflight = [];
  inference_active = false;
  backend_state = BackendState.running;
  slots = slot ∷ [];
  engines = some no_engines;
  model_hash = none;
  last_request_time = 0;
  self_heal_running = false;
  next_task = 0;
}

abbrev events : List (LoopEvent ℕ)
events =
    from_coordinator (request (codes "r1") 0 (some (codes "k"))) around
    ∷ idle_elapsed (λ n. true)
    ∷ window_closed (λ n. true)
    ∷ from_coordinator (request (codes "r2") 0 (some (codes "k"))) around
    ∷ from_coordinator (cancel_request (codes "r1")) around
    ∷ task_done (codes "r1") false
    ∷ []

no_engines-AllLoaded : AllLoaded no_engines
no_engines-AllLoaded id n e = absurd (ground (arith, e))

on_request-IsReplied_example :
    IsReplied json
      (codes "r1")
      0
      (some (codes "k"))
      5
      idle
      (on_request json true (codes "r1") 0 (some (codes "k")) around idle)
on_request-IsReplied_example =
    on_request-IsReplied json true (codes "r1") 0 (some (codes "k")) around idle
      no_engines-AllLoaded

run_loop-IsTracked_example :
    IsTracked
      (run_loop json true (some 10) events idle).0
      (spawned_since_closing json true (some 10) events idle [])
run_loop-IsTracked_example = run_loop-IsTracked json true (some 10) events idle [] (record {
  serving = λ e. absurd (ground (arith, e));
  fresh = tt;
  held = tt;
  cached = no_engines-AllLoaded;
})

both_spawned :
    ((run_loop json true (some 10) events idle).0.inflight ≡ (codes "r2", 1) ∷ [])
    × (tasks (run_loop json true (some 10) events idle).1 ≡ (0, 0) ∷ (1, 1) ∷ [])
    × (spawned_since_closing json true (some 10) events idle [] ≡ (1, 1) ∷ [])
unfolding run_loop step on_request get_or_load_inprocess_engine insert find_slot change_port serves
    untrack may_idle on_window_closed unload_inprocess_engines
both_spawned = (refl, refl, refl)

abbrev silent : Startup
silent = record {
  spawned = some 78;
  healthy = λ i. false;
  model_loaded = λ i. false;
  warms_up = λ i. false;
}

abbrev fails : Answer
fails = record { healthy = false; startup = silent }

abbrev recovers : Answer
recovers = record { healthy = true; startup = silent }

abbrev answers : List Answer
answers = fails ∷ fails ∷ fails ∷ fails ∷ fails ∷ recovers ∷ []

abbrev watched : Watched
watched = record { slot = slot; failures = 0 }

check_rounds_paced_example :
    (5 * (check_rounds answers watched).1 + (check_rounds answers watched).0.failures
      ≤ 0 + (check_rounds answers watched).2)
    × (false ≡ false → (check_rounds answers watched).0.slot.restarting ≡ false)
check_rounds_paced_example = check_rounds_paced answers watched

-- After a restart that failed, a check that succeeds does not mark the slot healthy.
stays_unhealthy : (check_rounds answers watched).0.slot.healthy ≡ false
unfolding check_rounds check_slot reload_backend poll
stays_unhealthy = refl

-- A slot that was restarted well still sets the flag to crashed.
flag_crashed :
    (monitor_round
      ((record { slot = slot; failures = 4 }, record { healthy = false; startup = startup }) ∷ [])
      BackendState.running).1
    ≡ BackendState.crashed
unfolding monitor_round check_slots check_slot
flag_crashed = refl
