-- ===== src/Schedule/Closing.antt =====
-- `duration_until_inactive` and the arcs of the week.
use d_inference.Prelude.{
  All-Memᴰ, ℕ, ◌+◌, ◌-◌, ◌*◌, ◌%◌, ◌≤◌, ◌<◌, ◌≡◌, arith, Memᴰ, some, Bool-cases, ◌&&◌, ◌||◌, inl,
  inr, List, none, ◌∷◌, Option-cases, ◌↔◌, false, [], refl,
}
use d_inference.Schedule.Week.{
  Weekday, num_days_from_monday, NaiveTime, secs_until_midnight, has_day, num_days_lt, time_le,
  time_lt, time_to_secs, prev_weekday, num_days-prev_weekday, IsTime,
}
use d_inference.Schedule.Config.{ParsedWindow, Schedule}
use d_inference.Schedule.Active.{
  window_remaining, duration_until_inactive, first_remaining, window_active, any_active,
  is_active_now,
}
use d_inference.Schedule.Spec.{
  week, instant, span, since_open, Covers, IsSchedule, IsCovered, IsWindow,
}
use d_inference.Schedule.Coverage.{
  Nums, since, span_le, has_day→Memᴰ, since_today, since_open-since, since_yesterday, Nums-of,
}

-- What is left of a window that last opened `since` ago.
since_later :
    (i s j t x l : ℕ)
    → i < 7
    → j < 7
    → s < 86400
    → t < 86400
    → l ≤ 86400
    → since i s j t + x < l
    → ((j * 86400 + t + x) % week + week - (i * 86400 + s)) % week ≡ since i s j t + x
unfolding since
since_later i s j t x l hi hj hs ht hl h = omega arith

-- Once a window is open, it is still open `x` seconds later if less than what is left has passed.
stays_covered :
    (w : ParsedWindow) (d today : Weekday) (time : NaiveTime) (x : ℕ)
    → Nums w time
    → Memᴰ d w.days
    → since_open w d (instant today time) + x < span w
    → Covers w ((instant today time + x) % week)
unfolding since_open instant
stays_covered w d today time x n m h =
    (d, m, omega (arith, span_le w time n, num_days_lt d, num_days_lt today, n.start_lt, n.now_lt))

-- The rest that the loop computes for a window is the rest of its arc.
window_remaining_exact :
    (w : ParsedWindow) (today : Weekday) (time : NaiveTime) (r : ℕ)
    → Nums w time
    → window_remaining w today time ≡ some r
    → (d : Weekday) × Memᴰ d w.days × (since_open w d (instant today time) + r ≡ span w) × (0 < r)
unfolding window_remaining span secs_until_midnight
window_remaining_exact w today time r n h =
    elim (Bool-cases
      (has_day w.days today && time_le w.start time && (w.overnight || time_lt time w.end))) [
        | inl now ↦
            let (d, m, e) = has_day→Memᴰ w.days today (ground arith) in
            let today_since =
              since_today (num_days_from_monday d) (time_to_secs w.start)
                (num_days_from_monday today) (time_to_secs time) in
            (
              d,
              m,
              ground (arith, since_open-since w d today time, num_days_lt d, today_since),
              ground arith,
            )
        | inr before ↦
            let (d, m, e) = has_day→Memᴰ w.days (prev_weekday today) (ground arith) in
            let yesterday_since =
              since_yesterday (num_days_from_monday d) (time_to_secs w.start)
                (num_days_from_monday today) (time_to_secs time) in
            (
              d,
              m,
              ground (
                arith,
                since_open-since w d today time,
                num_days_lt d,
                num_days_lt today,
                num_days-prev_weekday today,
                yesterday_since,
              ),
              ground arith,
            )
      ]

-- What the returned time means for the second of the week `m`: it is what is left, `r` seconds, of an
-- arc in which `m` lies.
abbrev pub EndsAfter : Schedule → ℕ → ℕ → Type 0
EndsAfter s m r =
    (w : ParsedWindow) × Memᴰ w s.windows
    × (d : Weekday) × Memᴰ d w.days
    × (since_open w d m + r ≡ span w)
    × (0 < r)

first_remaining_found :
    (ws : List ParsedWindow) (today : Weekday) (time : NaiveTime) (r : ℕ)
    → first_remaining ws today time ≡ some r
    → (w : ParsedWindow) × Memᴰ w ws × (window_remaining w today time ≡ some r)
unfolding first_remaining
first_remaining_found [] today time r h = cc
first_remaining_found (w ∷ ws) today time r h =
    elim (Option-cases (window_remaining w today time)) [
      | inl e ↦
          let (v, m, q) = first_remaining_found ws today time r (ground arith) in
          (v, Memᴰ.tail m, q)
      | inr (n, e) ↦ (w, Memᴰ.head refl, ground arith)
    ]

-- A time that `duration_until_inactive` returns is exactly what is left of an arc of a window that covers
-- the present second, and it is positive.
pub duration_until_inactive-EndsAfter :
    (s : Schedule) (today : Weekday) (time : NaiveTime) (r : ℕ)
    → IsSchedule s
    → IsTime time
    → duration_until_inactive s today time ≡ some r
    → EndsAfter s (instant today time) r
unfolding duration_until_inactive
duration_until_inactive-EndsAfter s today time r v h e =
    let (w, m, q) = first_remaining_found s.windows today time r e in
    let n = Nums-of w time (All-Memᴰ IsWindow s.windows v m) h in
    let (d, md, exact, positive) = window_remaining_exact w today time r n q in
    (w, m, d, md, exact, positive)

-- The schedule stays active at every second before the time that `duration_until_inactive` returns is
-- over.
duration_until_inactive-IsCovered :
    (s : Schedule) (today : Weekday) (time : NaiveTime) (r x : ℕ)
    → IsSchedule s
    → IsTime time
    → duration_until_inactive s today time ≡ some r
    → x < r
    → IsCovered s ((instant today time + x) % week)
unfolding duration_until_inactive
duration_until_inactive-IsCovered s today time r x v h e lt =
    let (w, m, q) = first_remaining_found s.windows today time r e in
    let n = Nums-of w time (All-Memᴰ IsWindow s.windows v m) h in
    let (d, md, exact, positive) = window_remaining_exact w today time r n q in
    (w, m, stays_covered w d today time x n md (omega arith))

remaining_some_iff :
    (w : ParsedWindow) (today : Weekday) (time : NaiveTime)
    → (window_remaining w today time ≡ none) ↔ (window_active w today time ≡ false)
unfolding window_remaining window_active
remaining_some_iff w today time = ground arith

first_remaining-none :
    (ws : List ParsedWindow) (today : Weekday) (time : NaiveTime)
    → (first_remaining ws today time ≡ none) ↔ (any_active ws today time ≡ false)
unfolding first_remaining any_active
first_remaining-none [] today time = (λ e. refl, λ e. refl)
first_remaining-none (w ∷ ws) today time =
    ground (arith, remaining_some_iff w today time, first_remaining-none ws today time)

-- `duration_until_inactive` returns a time exactly when `is_active_now` holds at the same reading of
-- the clock.
duration_until_inactive-is_active_now :
    (s : Schedule) (today : Weekday) (time : NaiveTime)
    → (duration_until_inactive s today time ≡ none) ↔ (is_active_now s today time ≡ false)
unfolding duration_until_inactive is_active_now
duration_until_inactive-is_active_now s today time = first_remaining-none s.windows today time
