-- ===== src/Serve/Slots.antt =====
-- The slots that the event loop and the health monitor share: one model on one port each.
use d_inference.Prelude.{
  Bool, true, false, ◌||◌, Option, none, some, List, [], ◌∷◌, ◌==◌, if◌then◌else◌, Text, text_eq,
  contains, ℕ,
}

pub record Slot : Type 0 where
  pub model_id : Text
  pub model_path : Text
  pub port : ℕ
  pub pid : Option ℕ
  pub healthy : Bool
  pub restarting : Bool

-- The states of the shared flag.
pub data BackendState : Type 0 where
  running : BackendState
  idle_shutdown : BackendState
  crashed : BackendState

abbrev pub is_running : BackendState → Bool
is_running running = true
is_running idle_shutdown = false
is_running crashed = false

-- The test of one slot in the search for a request's model.
unfoldable pub serves : Text → Slot → Bool
serves model s = text_eq s.model_id model || contains s.model_id model || contains model s.model_id

unfoldable pub find_slot : Text → List Slot → Option Slot
find_slot model [] = none
find_slot model (s ∷ slots) =
    let rest = find_slot model slots in if serves model s then some s else rest

-- `iter_mut().find(|s| s.port == port)`, and a change of the slot that is found.
unfoldable pub change_port : ℕ → (Slot → Slot) → List Slot → List Slot
change_port port f [] = []
change_port port f (s ∷ slots) =
    let rest = change_port port f slots in if s.port == port then f s ∷ slots else s ∷ rest

abbrev pub set_restarting : Bool → Slot → Slot
set_restarting b s = record s { restarting = b }

abbrev pub set_health : Bool → Slot → Slot
set_health b s = record s { healthy = b; restarting = false }

abbrev pub set_reloaded : ℕ → Slot → Slot
set_reloaded new_pid s = record s { pid = some new_pid; healthy = true; restarting = false }
