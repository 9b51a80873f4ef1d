-- ===== src/Schedule/Spec.antt =====
-- What a schedule means, apart from the code: the seconds of a week of 604800 seconds that begins on
-- Monday at midnight, and the arcs of that week that the windows cover.
use d_inference.Prelude.{ℕ, ◌+◌, ◌-◌, ◌*◌, ◌%◌, ◌<◌, ◌≡◌, Memᴰ, All, if◌then◌else◌}
use d_inference.Schedule.Week.{
  Weekday, num_days_from_monday, NaiveTime, IsTime, time_to_secs, time_le,
}
use d_inference.Schedule.Config.{ParsedWindow, Schedule}

abbrev pub week : ℕ
week = 604800

-- The second of the week that a weekday and a time of day stand for.
unfoldable pub instant : Weekday → NaiveTime → ℕ
instant d t = num_days_from_monday d * 86400 + time_to_secs t

-- How long a window stays open.
unfoldable pub span : ParsedWindow → ℕ
span w =
    if w.overnight
    then 86400 - time_to_secs w.start + time_to_secs w.end
    else time_to_secs w.end - time_to_secs w.start

-- How long ago, at second `m` of a week, the window last opened on day `d`.
unfoldable pub since_open : ParsedWindow → Weekday → ℕ → ℕ
unfolding instant
since_open w d m = (m + week - instant d w.start) % week

-- Second `m` lies in the arc that begins when the window opens on one of its days.
abbrev pub Covers : ParsedWindow → ℕ → Type 0
Covers w m = (d : Weekday) × Memᴰ d w.days × (since_open w d m < span w)

abbrev pub IsCovered : Schedule → ℕ → Type 0
IsCovered s m = (w : ParsedWindow) × Memᴰ w s.windows × Covers w m

-- A window as `from_config` makes it.
pub record IsWindow (w : ParsedWindow) : Type 0 where
  pub start_time : IsTime w.start
  pub end_time : IsTime w.end
  pub start_whole : w.start.nano ≡ 0
  pub end_whole : w.end.nano ≡ 0
  pub overnight_iff : w.overnight ≡ time_le w.end w.start

abbrev pub IsSchedule : Schedule → Type 0
IsSchedule s = All IsWindow s.windows
