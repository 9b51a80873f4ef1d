-- ===== src/Serve/Paced.antt =====
-- How often the health monitor restarts a slot.
use d_inference.Prelude.{
  ◌≡◌, refl, Bool, true, false, not, ◌&&◌, List, [], ◌∷◌, arith, ltb, leb, if◌then◌else◌, leb→le, ℕ,
  ◌*◌, ◌+◌, ◌%◌, ◌≤◌,
}
use d_inference.Serve.Slots.{Slot}
use d_inference.Serve.Reload.{Startup, Reloaded, ready, not_ready, reload_backend}
use d_inference.Serve.Monitor.{
  Watched, Answer, Checked, unhealthy, kill_slot, restarted, failed_check, check_slot,
}

-- The rounds of one slot: its state in the end, how often it was found to have crashed, and how many
-- checks failed.
unfoldable pub check_rounds : List Answer → Watched → Watched × ℕ × ℕ
check_rounds [] w = (w, 0, 0)
check_rounds (a ∷ answers) w =
    let c = check_slot a w in
    let (last, crashes, fails) = check_rounds answers c.watched in
    (last, (if c.crashed then 1 else 0) + crashes, (if a.healthy then 0 else 1) + fails)

restarted-restarting : (slot : Slot) (r : Reloaded) → (restarted slot r).restarting ≡ false
restarted-restarting slot (ready new_pid) = refl
restarted-restarting slot (not_ready e) = refl

-- One check: its part of the count, and the flag of a slot that no other task restarts.
abbrev Pays : Watched → (fails : ℕ) → Checked → Type 0
Pays w fails c =
    (5 * (if c.crashed then 1 else 0) + c.watched.failures ≤ w.failures + fails)
    × (w.slot.restarting ≡ false → c.watched.slot.restarting ≡ false)

failed_check-Pays :
    (startup : Startup) (w : Watched) (failures : ℕ)
    → failures ≤ w.failures + 1
    → Pays w 1 (failed_check startup w.slot failures)
failed_check-Pays startup w failures h = go (leb 5 failures) (not w.slot.restarting) refl
  where
    go :
        (b c : Bool)
        → leb 5 failures ≡ b
        → Pays w 1 (
            if b && c
            then record {
              watched = record {
                slot = restarted (unhealthy w.slot) (reload_backend startup).0;
                failures = 0;
              };
              crashed = true;
              killed = kill_slot w.slot.pid;
            }
            else record {
              watched = record { slot = w.slot; failures = failures };
              crashed = false;
              killed = [];
            })
    go true true e = (
      omega (arith, h, leb→le 5 failures e),
      λ r. restarted-restarting (unhealthy w.slot) (reload_backend startup).0,
    )
    go true false e = (omega (arith, h), λ r. r)
    go false c e = (omega (arith, h), λ r. r)

check_slot-Pays : (a : Answer) (w : Watched) → Pays w (if a.healthy then 0 else 1) (check_slot a w)
unfolding check_slot
check_slot-Pays a w = go a.healthy (ltb 0 w.failures)
  where
    go :
        (b c : Bool)
        → Pays w (if b then 0 else 1) (
            if b
            then record {
              watched =
                  if c then record { slot = record w.slot { healthy = true }; failures = 0 } else w;
              crashed = false;
              killed = [];
            }
            else failed_check a.startup w.slot ((w.failures + 1) % 4294967296))
    go true true = (omega arith, λ r. r)
    go true false = (omega arith, λ r. r)
    go false c = failed_check-Pays a.startup w ((w.failures + 1) % 4294967296) (omega arith)

-- However the checks of a slot come out, it is restarted at most once for five failed checks, counting
-- those that it had failed before; and if no other task restarts it, the monitor never leaves it
-- marked as restarting, not even when a restart fails.
pub check_rounds_paced :
    (answers : List Answer) (w : Watched)
    → (5 * (check_rounds answers w).1 + (check_rounds answers w).0.failures
        ≤ w.failures + (check_rounds answers w).2)
      × (w.slot.restarting ≡ false → (check_rounds answers w).0.slot.restarting ≡ false)
unfolding check_rounds
check_rounds_paced [] w = (omega arith, λ r. r)
check_rounds_paced (a ∷ answers) w =
    let (paid, kept) = check_slot-Pays a w in
    let (rest, kept_after) = check_rounds_paced answers (check_slot a w).watched in
    (omega (arith, paid, rest), λ r. kept_after (kept r))
