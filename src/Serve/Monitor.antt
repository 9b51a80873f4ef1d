-- ===== src/Serve/Monitor.antt =====
-- The health monitor of the slots, which `cmd_serve` starts for backend processes. A round is modelled
-- without steps of the event loop in between.
use d_inference.Prelude.{
  Bool, true, false, not, ◌&&◌, ◌||◌, Option, none, some, List, [], ◌∷◌, ◌++◌, ltb, leb,
  if◌then◌else◌, ℕ, ◌+◌, ◌%◌,
}
use d_inference.Serve.Slots.{Slot, BackendState, running, crashed, set_restarting, set_reloaded}
use d_inference.Serve.Reload.{Startup, Reloaded, ready, not_ready, reload_backend}

-- A slot with its count of failures in a row.
pub record Watched : Type 0 where
  pub slot : Slot
  pub failures : ℕ

-- What a slot's backend answers in a round: to the health check, and to a restart.
pub record Answer : Type 0 where
  pub healthy : Bool
  pub startup : Startup

-- `crashed` is whether the slot was found to have crashed; `killed` are the processes that were killed.
pub record Checked : Type 0 where
  pub watched : Watched
  pub crashed : Bool
  pub killed : List ℕ

abbrev pub unhealthy : Slot → Slot
unhealthy s = record s { healthy = false; restarting = true }

abbrev pub kill_slot : Option ℕ → List ℕ
kill_slot none = []
kill_slot (some pid) = if ltb 0 pid then pid ∷ [] else []

-- The end of a restart, for a slot that was marked.
abbrev pub restarted : Slot → Reloaded → Slot
restarted slot (ready new_pid) = set_reloaded new_pid slot
restarted slot (not_ready e) = set_restarting false slot

-- A health check that failed, so many times in a row.
abbrev pub failed_check : Startup → Slot → ℕ → Checked
failed_check startup slot failures =
    if leb 5 failures && not slot.restarting
    then record {
      watched = record {
        slot = restarted (unhealthy slot) (reload_backend startup).0;
        failures = 0;
      };
      crashed = true;
      killed = kill_slot slot.pid;
    }
    else record {
      watched = record { slot = slot; failures = failures };
      crashed = false;
      killed = [];
    }

-- The count is a `u32`.
unfoldable pub check_slot : Answer → Watched → Checked
check_slot a w =
    if a.healthy
    then record {
      watched =
          if ltb 0 w.failures
          then record { slot = record w.slot { healthy = true }; failures = 0 }
          else w;
      crashed = false;
      killed = [];
    }
    else failed_check a.startup w.slot ((w.failures + 1) % 4294967296)

-- The slots of a round in their order, each with its answer; whether any was found to have crashed.
unfoldable pub check_slots : List (Watched × Answer) → List Watched × Bool × List ℕ
unfolding check_slot
check_slots [] = ([], false, [])
check_slots ((w, a) ∷ rest) =
    let c = check_slot a w in
    let (ws, any_crashed, killed) = check_slots rest in
    (c.watched ∷ ws, c.crashed || any_crashed, c.killed ++ killed)

abbrev pub all_healthy : List Watched → Bool
all_healthy [] = true
all_healthy (w ∷ ws) = w.slot.healthy && all_healthy ws

-- A round of the monitor, with the shared flag.
unfoldable pub monitor_round :
    List (Watched × Answer) → BackendState → List Watched × BackendState × List ℕ
unfolding check_slots
monitor_round watched state =
    let (ws, any_crashed, killed) = check_slots watched in
    (ws, if any_crashed then crashed else if all_healthy ws then running else state, killed)
