-- ===== src/Schedule/Week.antt =====
-- Days of the week and times of day, as scheduling.rs takes them from chrono, and its helpers on them.
use d_inference.Prelude.{
  ℕ, zero, suc, ◌+◌, ◌-◌, ◌*◌, ◌%◌, ◌<◌, ◌≡◌, refl, Bool, false, ◌&&◌, ◌||◌, not, List, [], ◌∷◌,
  arith, ltb, ◌==◌, get_elem?, unwrap_or,
}

pub data Weekday : Type 0 where
  mon tue wed thu fri sat sun : Weekday

unfoldable pub num_days_from_monday : Weekday → ℕ
num_days_from_monday mon = 0
num_days_from_monday tue = 1
num_days_from_monday wed = 2
num_days_from_monday thu = 3
num_days_from_monday fri = 4
num_days_from_monday sat = 5
num_days_from_monday sun = 6

unfoldable pub prev_weekday : Weekday → Weekday
prev_weekday mon = sun
prev_weekday tue = mon
prev_weekday wed = tue
prev_weekday thu = wed
prev_weekday fri = thu
prev_weekday sat = fri
prev_weekday sun = sat

abbrev all_days : List Weekday
all_days = mon ∷ tue ∷ wed ∷ thu ∷ fri ∷ sat ∷ sun ∷ []

-- The index is below 7, so the default is never taken.
unfoldable pub weekday_plus : Weekday → ℕ → Weekday
unfolding num_days_from_monday
weekday_plus day n = unwrap_or (get_elem? all_days ((num_days_from_monday day + n) % 7)) day

-- `days.contains(&day)`
unfoldable pub has_day : List Weekday → Weekday → Bool
has_day [] day = false
has_day (d ∷ days) day = num_days_from_monday d == num_days_from_monday day || has_day days day

-- A chrono `NaiveTime`; `nano` is the part below a second.
pub record NaiveTime : Type 0 where
  pub hour : ℕ
  pub minute : ℕ
  pub second : ℕ
  pub nano : ℕ

pub record IsTime (t : NaiveTime) : Type 0 where
  pub hour_lt : t.hour < 24
  pub minute_lt : t.minute < 60
  pub second_lt : t.second < 60

unfoldable pub time_to_secs : NaiveTime → ℕ
time_to_secs t = t.hour * 3600 + t.minute * 60 + t.second

unfoldable pub secs_until_midnight : NaiveTime → ℕ
unfolding time_to_secs
secs_until_midnight t = 86400 - time_to_secs t

-- chrono orders times of day as instants of one day.
unfoldable pub time_lt : NaiveTime → NaiveTime → Bool
unfolding time_to_secs
time_lt a b =
    ltb (time_to_secs a) (time_to_secs b) || (time_to_secs a == time_to_secs b && ltb a.nano b.nano)

unfoldable pub time_le : NaiveTime → NaiveTime → Bool
unfolding time_lt
time_le a b = not (time_lt b a)

pub num_days_lt : (d : Weekday) → num_days_from_monday d < 7
unfolding num_days_from_monday
num_days_lt mon = omega arith
num_days_lt _ = omega arith

pub num_days-prev_weekday :
    (d : Weekday) → num_days_from_monday (prev_weekday d) ≡ (num_days_from_monday d + 6) % 7
unfolding num_days_from_monday prev_weekday
num_days-prev_weekday mon = refl
num_days-prev_weekday _ = refl

pick : (d : Weekday) (i : ℕ) → i < 7 → num_days_from_monday (unwrap_or (get_elem? all_days i) d) ≡ i
unfolding num_days_from_monday
pick d zero h = refl
pick d (suc zero) h = refl
pick d (suc (suc zero)) h = refl
pick d (suc (suc (suc zero))) h = refl
pick d (suc (suc (suc (suc zero)))) h = refl
pick d (suc (suc (suc (suc (suc zero))))) h = refl
pick d (suc (suc (suc (suc (suc (suc zero)))))) h = refl
pick d (suc (suc (suc (suc (suc (suc (suc i))))))) h = omega arith

pub num_days-weekday_plus :
    (d : Weekday) (n : ℕ)
    → num_days_from_monday (weekday_plus d n) ≡ (num_days_from_monday d + n) % 7
unfolding weekday_plus
num_days-weekday_plus d n = pick d ((num_days_from_monday d + n) % 7) (omega arith)

pub time_to_secs_lt : (t : NaiveTime) → IsTime t → time_to_secs t < 86400
unfolding time_to_secs
time_to_secs_lt t h = omega arith

pub secs_until_midnight_lem : (t : NaiveTime) → secs_until_midnight t ≡ 86400 - time_to_secs t
unfolding secs_until_midnight
secs_until_midnight_lem t = refl
