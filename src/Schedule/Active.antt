-- ===== src/Schedule/Active.antt =====
-- `Schedule::is_active_now` and `Schedule::duration_until_inactive`. The local clock is an argument:
-- the weekday and the time of day that `Local::now` gives.
use d_inference.Prelude.{
  ℕ, ◌+◌, ◌-◌, Bool, true, false, ◌&&◌, ◌||◌, List, [], ◌∷◌, Option, none, some, if◌then◌else◌,
}
use d_inference.Schedule.Week.{
  Weekday, NaiveTime, prev_weekday, has_day, time_to_secs, secs_until_midnight, time_lt, time_le,
}
use d_inference.Schedule.Config.{ParsedWindow, Schedule}

-- The test of one window in the loop of `is_active_now`.
unfoldable pub window_active : ParsedWindow → Weekday → NaiveTime → Bool
window_active w today time =
    if w.overnight
    then (let yesterday = prev_weekday today in
        has_day w.days today && time_le w.start time
        || has_day w.days yesterday && time_lt time w.end)
    else has_day w.days today && time_le w.start time && time_lt time w.end

unfoldable pub any_active : List ParsedWindow → Weekday → NaiveTime → Bool
any_active [] today time = false
any_active (w ∷ ws) today time =
    if window_active w today time then true else any_active ws today time

unfoldable pub is_active_now : Schedule → Weekday → NaiveTime → Bool
unfolding any_active
is_active_now s today time = any_active s.windows today time

-- What the loop of `duration_until_inactive` returns at one window, in seconds.
unfoldable pub window_remaining : ParsedWindow → Weekday → NaiveTime → Option ℕ
window_remaining w today time =
    if w.overnight
    then (let yesterday = prev_weekday today in
        if has_day w.days today && time_le w.start time
        then some (secs_until_midnight time + time_to_secs w.end)
        else if has_day w.days yesterday && time_lt time w.end
        then some (time_to_secs w.end - time_to_secs time)
        else none)
    else if has_day w.days today && time_le w.start time && time_lt time w.end
    then some (time_to_secs w.end - time_to_secs time)
    else none

abbrev pub or_else : Option ℕ → Option ℕ → Option ℕ
or_else none o = o
or_else (some n) o = some n

unfoldable pub first_remaining : List ParsedWindow → Weekday → NaiveTime → Option ℕ
first_remaining [] today time = none
first_remaining (w ∷ ws) today time =
    or_else (window_remaining w today time) (first_remaining ws today time)

unfoldable pub duration_until_inactive : Schedule → Weekday → NaiveTime → Option ℕ
unfolding first_remaining
duration_until_inactive s today time = first_remaining s.windows today time
