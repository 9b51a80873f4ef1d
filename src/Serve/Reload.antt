-- ===== src/Serve/Reload.antt =====
-- `reload_backend`: start a backend process and wait until it serves, for a while.
use d_inference.Prelude.{
  Bool, true, false, Option, none, some, ◌==◌, if◌then◌else◌, ℕ, suc, ◌+◌, zero,
}

-- What the process answers in the rounds of each phase.
pub record Startup : Type 0 where
  pub spawned : Option ℕ
  pub healthy : ℕ → Bool
  pub model_loaded : ℕ → Bool
  pub warms_up : ℕ → Bool

pub data ReloadError : Type 0 where
  not_spawned : ReloadError
  server_not_up : ReloadError
  model_not_loaded : ReloadError
  warmup_failed : ReloadError

pub data Reloaded : Type 0 where
  ready : ℕ → Reloaded
  not_ready : ReloadError → Reloaded

-- A `for` loop that breaks when a test succeeds: whether it did, and the seconds slept. `before` and
-- `behind` are the sleeps of a round, before its test and when that fails.
abbrev pub round : Bool → ℕ → ℕ → Bool × ℕ → Bool × ℕ
round true before pause rest = (true, before)
round false before pause (found, slept) = (found, before + pause + slept)

unfoldable pub poll : (rounds i : ℕ) → (before behind last : ℕ) → (ℕ → Bool) → Bool × ℕ
poll zero i before behind last test = (false, 0)
poll (suc rounds) i before behind last test =
    round (test i) before (if rounds == 0 then last else behind)
      (poll rounds (i + 1) before behind last test)

abbrev pub then_wait : Bool × ℕ → ReloadError → Reloaded × ℕ → Reloaded × ℕ
then_wait (true, slept) e (r, more) = (r, slept + more)
then_wait (false, slept) e (r, more) = (not_ready e, slept)

-- The phases of a process that was spawned, or was not.
abbrev pub wait_for : Startup → Option ℕ → Reloaded × ℕ
wait_for s none = (not_ready not_spawned, 0)
wait_for s (some new_pid) = then_wait (poll 150 0 2 0 0 s.healthy) server_not_up (
    then_wait (poll 150 0 0 2 2 s.model_loaded) model_not_loaded
      (then_wait (poll 5 0 0 5 0 s.warms_up) warmup_failed (ready new_pid, 0)))

-- The result, and the seconds that were slept.
unfoldable pub reload_backend : Startup → Reloaded × ℕ
reload_backend s = wait_for s s.spawned
