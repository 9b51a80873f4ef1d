-- ===== src/Schedule/Examples.antt =====
-- Concrete schedules: the cases of the tests of scheduling.rs, and the theorems at them.
use d_inference.Schedule.Coverage.{is_active_now-IsCovered}
use d_inference.Schedule.Waits.{duration_until_next_active, scan_windows, scan_days, day_wait}
use d_inference.Schedule.NextOpening.{
  IsNextOpening, AllPassed, duration_until_next_active-IsNextOpening,
}
use d_inference.Schedule.Closing.{EndsAfter, duration_until_inactive-EndsAfter}
use d_inference.Schedule.Active.{
  duration_until_inactive, is_active_now, window_active, window_remaining,
}
use d_inference.Schedule.Parsing.{
  ReadsMinutes, AreRead, from_config-IsSchedule, IsUsable, from_config-IsUsable,
}
use d_inference.Prelude.{
  ℕ, ◌+◌, ◌-◌, ◌*◌, ◌≡◌, refl, Option, Text, codes, some, true, ◌∷◌, [], arith, if◌then◌else◌, ltb,
  ◌==◌, none, ◌&&◌, All, ◌≢◌, ◌↔◌, ◌⊎◌, Memᴰ, false,
}
use d_inference.Schedule.Week.{
  mon, fri, sat, NaiveTime, IsTime, time_le, time_lt, has_day, num_days_from_monday, prev_weekday,
  secs_until_midnight, weekday_plus,
}
use d_inference.Schedule.Config.{
  ScheduleWindow, ScheduleConfig, Schedule, from_config, parse_windows, parse_window, parse_days,
  parse_day,
}
use d_inference.Schedule.Spec.{instant, IsSchedule, IsCovered}

-- A reader of `HH:MM`.
abbrev digits : ℕ → ℕ → ℕ
digits a b = (a - b'0') * 10 + (b - b'0')

abbrev checked : ℕ → ℕ → Option NaiveTime
checked h m =
    if ltb h 24 && ltb m 60
    then some (record { hour = h; minute = m; second = 0; nano = 0 })
    else none

abbrev read_time : Text → Option NaiveTime
read_time (a ∷ b ∷ c ∷ d ∷ e ∷ []) = if c == b':' then checked (digits a b) (digits d e) else none
read_time _ = none

checked_minutes :
    (h m : ℕ) (t : NaiveTime) → checked h m ≡ some t → IsTime t × (t.second ≡ 0) × (t.nano ≡ 0)
checked_minutes h m t e = ground arith

read_time-ReadsMinutes : ReadsMinutes read_time
read_time-ReadsMinutes [] t e = cc
read_time-ReadsMinutes (a ∷ []) t e = cc
read_time-ReadsMinutes (a ∷ b ∷ []) t e = cc
read_time-ReadsMinutes (a ∷ b ∷ c ∷ []) t e = cc
read_time-ReadsMinutes (a ∷ b ∷ c ∷ d ∷ []) t e = cc
read_time-ReadsMinutes (a ∷ b ∷ c ∷ d ∷ x ∷ []) t e =
    checked_minutes (digits a b) (digits d x) t (ground arith)
read_time-ReadsMinutes (a ∷ b ∷ c ∷ d ∷ x ∷ y ∷ r) t e = cc

at : ℕ → ℕ → NaiveTime
at h m = record { hour = h; minute = m; second = 0; nano = 0 }

abbrev nights : ScheduleWindow
nights = record {
  days = codes "Mon" ∷ codes "friday" ∷ codes "noday" ∷ [];
  start = codes "22:00";
  end = codes "08:00";
}

abbrev broken : ScheduleWindow
broken = record { days = codes "sat" ∷ []; start = codes "25:00"; end = codes "08:00" }

abbrev config : ScheduleConfig
config = record { enabled = true; windows = broken ∷ nights ∷ [] }

abbrev schedule : Schedule
schedule = record {
  windows =
      record {
        days = mon ∷ fri ∷ [];
        start = record { hour = 22; minute = 0; second = 0; nano = 0 };
        end = record { hour = 8; minute = 0; second = 0; nano = 0 };
        overnight = true;
      }
      ∷ [];
}

config_parsed : from_config read_time config ≡ some schedule
unfolding from_config parse_windows parse_window parse_days parse_day time_le time_lt
config_parsed = refl

schedule-IsSchedule : IsSchedule schedule
schedule-IsSchedule =
    (from_config-IsSchedule read_time config read_time-ReadsMinutes config_parsed).0

abbrev saturday_morning : NaiveTime
saturday_morning = record { hour = 7; minute = 30; second = 15; nano = 0 }

abbrev noon : NaiveTime
noon = record { hour = 12; minute = 0; second = 0; nano = 0 }

saturday_active : is_active_now schedule sat saturday_morning ≡ true
unfolding is_active_now window_active has_day num_days_from_monday prev_weekday time_le time_lt
saturday_active = refl

saturday_left : duration_until_inactive schedule sat saturday_morning ≡ some 1785
unfolding duration_until_inactive window_remaining has_day num_days_from_monday prev_weekday time_le
    time_lt
saturday_left = refl

saturday_closed : is_active_now schedule sat noon ≡ false
unfolding is_active_now window_active has_day num_days_from_monday prev_weekday time_le time_lt
saturday_closed = refl

from_config-IsUsable_example : (from_config read_time config ≢ none) ↔ (
    (config.enabled ≡ true) × ((w : ScheduleWindow) × Memᴰ w config.windows × IsUsable read_time w))
from_config-IsUsable_example = from_config-IsUsable read_time config

from_config-IsSchedule_example :
    IsSchedule schedule
    × All (λ p. p.days ≢ []) schedule.windows
    × (schedule.windows ≢ [])
    × AreRead read_time config.windows schedule.windows
from_config-IsSchedule_example =
    from_config-IsSchedule read_time config read_time-ReadsMinutes config_parsed

is_active_now-IsCovered_example :
    (is_active_now schedule sat saturday_morning ≡ true)
    ↔ IsCovered schedule (instant sat saturday_morning)
is_active_now-IsCovered_example =
    is_active_now-IsCovered schedule sat saturday_morning schedule-IsSchedule (omega arith)

duration_until_inactive-EndsAfter_example : EndsAfter schedule (instant sat saturday_morning) 1785
duration_until_inactive-EndsAfter_example =
    duration_until_inactive-EndsAfter schedule sat saturday_morning 1785 schedule-IsSchedule
      (omega arith) saturday_left

duration_until_next_active-IsNextOpening_example :
    IsNextOpening schedule
      (instant sat noon)
      (duration_until_next_active schedule sat noon sat noon)
    ⊎ (AllPassed schedule sat noon × (duration_until_next_active schedule sat noon sat noon ≡ 3600))
duration_until_next_active-IsNextOpening_example =
    duration_until_next_active-IsNextOpening schedule sat noon sat noon schedule-IsSchedule
      (omega arith) saturday_closed saturday_closed

-- Two days and ten hours from Saturday noon to Monday evening.
saturday_wait : duration_until_next_active schedule sat noon sat noon ≡ 208800
unfolding duration_until_next_active scan_windows scan_days day_wait secs_until_midnight
    weekday_plus is_active_now window_active has_day num_days_from_monday prev_weekday time_le
    time_lt
saturday_wait = refl
