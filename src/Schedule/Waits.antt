-- ===== src/Schedule/Waits.antt =====
-- `Schedule::duration_until_next_active`. A `Duration` is its seconds.
use d_inference.Prelude.{
  ℕ, zero, suc, ◌+◌, ◌-◌, ◌*◌, ◌^◌, ◌&&◌, not, List, [], ◌∷◌, Option, none, some, ltb, ◌==◌,
  if◌then◌else◌,
}
use d_inference.Schedule.Week.{
  Weekday, NaiveTime, weekday_plus, has_day, time_to_secs, secs_until_midnight, time_lt,
}
use d_inference.Schedule.Config.{ParsedWindow, Schedule}
use d_inference.Schedule.Active.{is_active_now}

abbrev pub u64_max : ℕ
u64_max = 2 ^ 64 - 1

-- The wait for one window on one day; `none` is `continue`.
unfoldable pub day_wait : ParsedWindow → Weekday → NaiveTime → ℕ → Option ℕ
day_wait w today time day_offset =
    if not (has_day w.days (weekday_plus today day_offset))
    then none
    else if day_offset == 0 && time_lt time w.start
    then some (time_to_secs w.start - time_to_secs time)
    else if ltb 0 day_offset
    then some (secs_until_midnight time + (day_offset - 1) * 86400 + time_to_secs w.start)
    else none

abbrev pub keep_min : Option ℕ → ℕ → ℕ
keep_min none min_wait = min_wait
keep_min (some wait) min_wait = if ltb wait min_wait then wait else min_wait

-- `for day_offset in 0u64..7`: `left` rounds are left, from `day_offset` on.
unfoldable pub scan_days : ParsedWindow → Weekday → NaiveTime → ℕ → ℕ → ℕ → ℕ
scan_days w today time zero day_offset min_wait = min_wait
scan_days w today time (suc left) day_offset min_wait =
    scan_days w today time left (day_offset + 1)
      (keep_min (day_wait w today time day_offset) min_wait)

unfoldable pub scan_windows : List ParsedWindow → Weekday → NaiveTime → ℕ → ℕ
scan_windows [] today time min_wait = min_wait
scan_windows (w ∷ ws) today time min_wait =
    scan_windows ws today time (scan_days w today time 7 0 min_wait)

-- The code reads the clock twice: `day₀` and `time₀` for `is_active_now`, then `today` and `time`.
unfoldable pub duration_until_next_active : Schedule → Weekday → NaiveTime → Weekday → NaiveTime → ℕ
duration_until_next_active s day₀ time₀ today time =
    if is_active_now s day₀ time₀
    then 0
    else let min_wait = scan_windows s.windows today time u64_max in
      if min_wait == u64_max then 3600 else min_wait
