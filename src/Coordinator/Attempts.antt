-- ===== src/Coordinator/Attempts.antt =====
-- The reconnection loop against a machine that counts failures.
use d_inference.Prelude.{
  ◌≡◌, refl, sym, ap, ◌∙◌, subst, Bool, true, false, List, [], ◌∷◌, ◌++◌, arith, leb, if◌then◌else◌,
  length, count_if, ℕ, suc, ◌+◌, min, ◌<◌, ◌^◌, ◌%◌, ◌/◌,
}
use d_inference.Backend.Backoff.{
  ExponentialBackoff, after, next_delay-after, reset-after, after_zero,
}
use d_inference.Coordinator.Reconnect.{
  Attempt, RunAction, connect, send_disconnected, report_connectivity, sleep, should_report, report,
  run_from, run,
}

-- `in_a_row` attempts have failed since the last connection that was closed normally, and `total` in
-- all.
unfoldable pub attempts_from : ℕ → ℕ → List Attempt → List RunAction
attempts_from in_a_row total [] = []
attempts_from in_a_row total (a ∷ rest) =
    let retry = attempts_from (suc in_a_row) (suc total) rest in
    let again = attempts_from 0 total rest in
    if a.shutdown_before
    then []
    else if a.closed_normally
    then connect ∷ again
    else connect
      ∷ send_disconnected
      ∷ (report (suc total)
          ++ sleep (min (2 ^ in_a_row) 5) ∷ (if a.shutdown_in_delay then [] else retry))

attempts_step :
    (a : Attempt) (rest : List Attempt) (k n : ℕ)
    → (if a.shutdown_before
        then []
        else if a.closed_normally
        then connect ∷ attempts_from 0 n rest
        else connect
          ∷ send_disconnected
          ∷ (report (suc n)
              ++ sleep (min (2 ^ k) 5)
                ∷ (if a.shutdown_in_delay then [] else attempts_from (suc k) (suc n) rest)))
      ≡ attempts_from k n (a ∷ rest)
unfolding attempts_from
attempts_step a rest k n = refl

small : (n m : ℕ) → n + suc m < 2 ^ 64 → (n + 1) % 2 ^ 64 ≡ suc n
small n m h = omega arith

-- One round, with the loop shut.
run_from_step :
    (a : Attempt) (rest : List Attempt) (k n : ℕ)
    → n + suc (length rest) < 2 ^ 64
    → run_from (a ∷ rest) (after k) n ≡ (
        if a.shutdown_before
        then []
        else if a.closed_normally
        then connect ∷ run_from rest (after 0) n
        else connect
          ∷ send_disconnected
          ∷ (report (suc n)
              ++ sleep (min (2 ^ k) 5)
                ∷ (if a.shutdown_in_delay then [] else run_from rest (after (suc k)) (suc n))))
unfolding run_from
run_from_step a rest k n h = rw (next_delay-after k, small n (length rest) h, reset-after k) refl

run_from-attempts_from :
    (as' : List Attempt) (k n : ℕ)
    → n + length as' < 2 ^ 64
    → run_from as' (after k) n ≡ attempts_from k n as'
run_from-attempts_from [] k n h = unfold run_from attempts_from in refl
run_from-attempts_from (a ∷ rest) k n h =
    run_from_step a rest k n h
    ∙ rw
        (
          run_from-attempts_from rest (suc k) (suc n) (omega arith),
          run_from-attempts_from rest 0 n (omega arith),
        )
        (attempts_step a rest k n)

-- The loop behaves as the counting machine, as long as fewer than 2 ^ 64 rounds are run: after a failure
-- it waits 2 ^ k seconds and 5 at most, where k attempts have failed since the last normal close; it
-- reports on the total of failures, which a normal close does not reset; and it ends at a shutdown
-- before an attempt or in a delay.
pub run-attempts_from :
    (attempts : List Attempt) → length attempts < 2 ^ 64 → run attempts ≡ attempts_from 0 0 attempts
unfolding run
run-attempts_from attempts h =
    ap (λ (b : ExponentialBackoff). run_from attempts b 0) (sym after_zero)
    ∙ run_from-attempts_from attempts 0 0 (omega arith)

unfoldable pub is_failure : RunAction → Bool
is_failure send_disconnected = true
is_failure connect = false
is_failure (report_connectivity n) = false
is_failure (sleep d) = false

unfoldable pub is_report : RunAction → Bool
is_report (report_connectivity n) = true
is_report connect = false
is_report send_disconnected = false
is_report (sleep d) = false

-- How many of the failures up to the n-th are reported.
unfoldable pub reports_due : ℕ → ℕ
reports_due n = (if leb 3 n then 1 else 0) + (if leb 10 n then 1 else 0) + n / 30

due_next : (n : ℕ) → reports_due (suc n) ≡ reports_due n + (if should_report (suc n) then 1 else 0)
unfolding reports_due should_report
due_next n = ground arith

count_report :
    (n : ℕ) (rest : List RunAction)
    → (count_if is_report (report n ++ rest)
        ≡ (if should_report n then 1 else 0) + count_if is_report rest)
      × (count_if is_failure (report n ++ rest) ≡ count_if is_failure rest)
unfolding is_report is_failure
count_report n rest = ground arith

-- The reports in a log are those due for its failures, after `n` failures before it.
Exact : ℕ → List RunAction → Type 0
Exact n log =
    (m : ℕ)
    → m ≡ n + count_if is_failure log
    → count_if is_report log + reports_due n ≡ reports_due m

Exact-nil : (n : ℕ) → Exact n []
unfolding Exact
Exact-nil n m e = ground arith

Exact-if :
    (b : Bool) (n : ℕ) (x y : List RunAction) → Exact n x → Exact n y → Exact n (if b then x else y)
Exact-if true n x y hx hy = hx
Exact-if false n x y hx hy = hy

Exact-connect : (n : ℕ) (log : List RunAction) → Exact n log → Exact n (connect ∷ log)
unfolding Exact is_report is_failure
Exact-connect n log h m e = omega (arith, h m (omega arith))

Exact-failure :
    (n d : ℕ) (log : List RunAction)
    → Exact (suc n) log
    → Exact n (connect ∷ send_disconnected ∷ (report (suc n) ++ sleep d ∷ log))
unfolding Exact is_report is_failure
Exact-failure n d log h m e =
    let (reports, failures) = count_report (suc n) (sleep d ∷ log) in
    omega (arith, reports, failures, due_next n, h m (omega (arith, failures)))

attempts_from-Exact : (attempts : List Attempt) (k n : ℕ) → Exact n (attempts_from k n attempts)
attempts_from-Exact [] k n = unfold attempts_from in Exact-nil n
attempts_from-Exact (a ∷ rest) k n = subst (Exact n) (attempts_step a rest k n) (
    Exact-if a.shutdown_before n _ _ (Exact-nil n) (
      Exact-if a.closed_normally n _ _ (Exact-connect n _ (attempts_from-Exact rest 0 n)) (
        Exact-failure n (min (2 ^ k) 5) _ (
          Exact-if a.shutdown_in_delay (suc n) _ _ (Exact-nil (suc n))
            (attempts_from-Exact rest (suc k) (suc n))))))

-- Telemetry is not flooded: after n failed attempts there have been reports for the third, the tenth and
-- each thirtieth of them, and no others; normal closes in between change nothing. Fewer than 2 ^ 64
-- rounds are run.
run_reports :
    (attempts : List Attempt)
    → length attempts < 2 ^ 64
    → count_if is_report (run attempts) ≡ reports_due (count_if is_failure (run attempts))
unfolding Exact
run_reports attempts h = rw (run-attempts_from attempts h) (
    omega (
      arith,
      none_due,
      attempts_from-Exact attempts 0 0 (count_if is_failure (attempts_from 0 0 attempts))
          (omega arith),
    ))
  where
    none_due : reports_due 0 ≡ 0
    none_due = unfold reports_due in refl
