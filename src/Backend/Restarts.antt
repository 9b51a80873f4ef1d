-- ===== src/Backend/Restarts.antt =====
-- The monitor against a machine that counts the failed restarts in a row.
use d_inference.Prelude.{
  ◌≡◌, refl, sym, ap, ◌∙◌, Bool, true, false, some, List, [], ◌∷◌, ℕ, min, ◌^◌, suc,
}
use d_inference.Backend.Backoff.{
  ExponentialBackoff, after, next_delay-after, reset-after, after_zero,
}
use d_inference.Backend.Monitor.{
  MonitorEvent, shutdown, interval, MonitorAction, report_crash, sleep, stop_backend, start_backend,
  report_restart_error, restart, monitor, start,
}

-- `failed` restarts have failed since the backend was last healthy or last restarted.
unfoldable pub supervise : ℕ → List MonitorEvent → List MonitorAction
supervise failed [] = []
supervise failed (shutdown ∷ events) = []
supervise failed (interval true stopped started ∷ events) = supervise 0 events
supervise failed (interval false stopped true ∷ events) =
    report_crash
    ∷ sleep (min (2 ^ failed) 5)
    ∷ stop_backend stopped
    ∷ start_backend true
    ∷ supervise 0 events
supervise failed (interval false stopped false ∷ events) =
    report_crash
    ∷ sleep (min (2 ^ failed) 5)
    ∷ stop_backend stopped
    ∷ start_backend false
    ∷ report_restart_error
    ∷ supervise (suc failed) events

restarted :
    (k : ℕ) (stopped : Bool)
    → restart stopped true (after k) ≡ (
      report_crash ∷ sleep (min (2 ^ k) 5) ∷ stop_backend stopped ∷ start_backend true ∷ [],
      after 0,
    )
unfolding restart
restarted k stopped = rw (next_delay-after k) (rw (reset-after (suc k)) refl)

restart_failed :
    (k : ℕ) (stopped : Bool)
    → restart stopped false (after k) ≡ (
      report_crash
          ∷ sleep (min (2 ^ k) 5)
          ∷ stop_backend stopped
          ∷ start_backend false
          ∷ report_restart_error
          ∷ [],
      after (suc k),
    )
unfolding restart
restart_failed k stopped = rw (next_delay-after k) refl

monitor-supervise :
    (events : List MonitorEvent) (k : ℕ) → monitor events (after k) ≡ supervise k events
unfolding monitor supervise
monitor-supervise [] k = refl
monitor-supervise (shutdown ∷ events) k = refl
monitor-supervise (interval true a b ∷ events) k =
    ap (monitor events) (reset-after k) ∙ monitor-supervise events 0
monitor-supervise (interval false a true ∷ events) k = rw (restarted k a) (
    ap
      (λ (r : List MonitorAction).
        report_crash ∷ sleep (min (2 ^ k) 5) ∷ stop_backend a ∷ start_backend true ∷ r)
      (monitor-supervise events 0))
monitor-supervise (interval false a false ∷ events) k = rw (restart_failed k a) (
    ap
      (λ (r : List MonitorAction).
        report_crash
        ∷ sleep (min (2 ^ k) 5)
        ∷ stop_backend a
        ∷ start_backend false
        ∷ report_restart_error
        ∷ r)
      (monitor-supervise events (suc k)))

-- A manager whose first start succeeds behaves as the counting machine: each unhealthy interval is
-- reported, waits 2 ^ k seconds and 5 at most, where k restarts have failed since the backend was last
-- healthy or restarted, and then stops and starts the backend; a failed restart is reported too. A
-- healthy interval does nothing, and the shutdown signal ends the loop.
pub start-supervise : (events : List MonitorEvent) → start true events ≡ some (supervise 0 events)
unfolding start
start-supervise events =
    ap (λ (b : ExponentialBackoff). some (monitor events b)) (sym after_zero)
    ∙ ap (λ (r : List MonitorAction). some r) (monitor-supervise events 0)
