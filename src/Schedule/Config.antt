-- ===== src/Schedule/Config.antt =====
-- `ScheduleConfig`, `parse_day` and `Schedule::from_config`. What chrono reads as `%H:%M` is the
-- parameter `parse_time`.
use d_inference.Prelude.{
  Bool, false, ◌||◌, not, List, [], ◌∷◌, Option, none, some, Text, codes, text_eq,
  to_ascii_lowercase, if◌then◌else◌, is_empty, ◌>>=◌,
}
use d_inference.Schedule.Week.{Weekday, mon, tue, wed, thu, fri, sat, sun, NaiveTime, time_le}

pub record ScheduleWindow : Type 0 where
  pub days : List Text
  pub start : Text
  pub end : Text

pub record ScheduleConfig : Type 0 where
  pub enabled : Bool
  pub windows : List ScheduleWindow

unfoldable pub default_config : ScheduleConfig
default_config = record { enabled = false; windows = [] }

pub record ParsedWindow : Type 0 where
  pub days : List Weekday
  pub start : NaiveTime
  pub end : NaiveTime
  pub overnight : Bool

pub record Schedule : Type 0 where
  pub windows : List ParsedWindow

unfoldable pub is_word : Text → Text → Text → Bool
is_word s short long = text_eq s short || text_eq s long

-- No character outside ASCII has a lower-case form that is a letter of these words, so lower-casing
-- the ASCII letters decides the same.
unfoldable pub parse_day : Text → Option Weekday
unfolding is_word
parse_day text =
    let s = to_ascii_lowercase text in
    if is_word s (codes "mon") (codes "monday")
    then some mon
    else if is_word s (codes "tue") (codes "tuesday")
    then some tue
    else if is_word s (codes "wed") (codes "wednesday")
    then some wed
    else if is_word s (codes "thu") (codes "thursday")
    then some thu
    else if is_word s (codes "fri") (codes "friday")
    then some fri
    else if is_word s (codes "sat") (codes "saturday")
    then some sat
    else if is_word s (codes "sun") (codes "sunday")
    then some sun
    else none

-- What `filter_map` does with one more result.
abbrev pub cons_some {ℓ} : {A : Type ℓ} → Option A → List A → List A
cons_some none xs = xs
cons_some (some x) xs = x ∷ xs

unfoldable pub parse_days : List Text → List Weekday
parse_days [] = []
parse_days (d ∷ ds) = cons_some (parse_day d) (parse_days ds)

module _ (parse_time : Text → Option NaiveTime) where
  -- One round of the loop; `none` is `continue`.
  unfoldable pub parse_window : ScheduleWindow → Option ParsedWindow
  parse_window w =
      let days = parse_days w.days in
      if is_empty days then none else do
        start ← parse_time w.start
        end ← parse_time w.end
        some (record { days = days; start = start; end = end; overnight = time_le end start })

  unfoldable pub parse_windows : List ScheduleWindow → List ParsedWindow
  parse_windows [] = []
  parse_windows (w ∷ ws) = cons_some (parse_window w) (parse_windows ws)

  unfoldable pub from_config : ScheduleConfig → Option Schedule
  from_config config =
      if not config.enabled || is_empty config.windows
      then none
      else let windows = parse_windows config.windows in
        if is_empty windows then none else some (record { windows = windows })
