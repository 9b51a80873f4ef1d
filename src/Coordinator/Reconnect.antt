-- ===== src/Coordinator/Reconnect.antt =====
-- `CoordinatorClient::run`: connect again and again, with a growing delay after failures.
use d_inference.Prelude.{Bool, ◌||◌, List, [], ◌∷◌, ◌++◌, ◌==◌, if◌then◌else◌, ℕ, ◌%◌, ◌+◌, ◌^◌}
use d_inference.Backend.Backoff.{ExponentialBackoff, new, next_delay, reset}

-- One round of the loop: whether the shutdown flag is set before it, how `connect_and_run` ends, and
-- whether the flag changes during the delay after a failure.
pub record Attempt : Type 0 where
  pub shutdown_before : Bool
  pub closed_normally : Bool
  pub shutdown_in_delay : Bool

pub data RunAction : Type 0 where
  connect : RunAction
  send_disconnected : RunAction
  report_connectivity : ℕ → RunAction
  sleep : ℕ → RunAction

unfoldable pub should_report : ℕ → Bool
should_report count = count == 3 || count == 10 || count % 30 == 0

abbrev pub report : ℕ → List RunAction
report count = if should_report count then report_connectivity count ∷ [] else []

unfoldable pub run_from : List Attempt → ExponentialBackoff → ℕ → List RunAction
run_from [] backoff reconnect_count = []
run_from (a ∷ rest) backoff reconnect_count =
    let (delay, backoff') = next_delay backoff in
    let count = (reconnect_count + 1) % 2 ^ 64 in
    let retry = run_from rest backoff' count in
    let again = run_from rest (reset backoff) reconnect_count in
    if a.shutdown_before
    then []
    else if a.closed_normally
    then connect ∷ again
    else connect
      ∷ send_disconnected
      ∷ (report count ++ sleep delay ∷ (if a.shutdown_in_delay then [] else retry))

unfoldable pub run : List Attempt → List RunAction
unfolding run_from new
run attempts = run_from attempts new 0
