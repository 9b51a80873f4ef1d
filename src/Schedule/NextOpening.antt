-- ===== src/Schedule/NextOpening.antt =====
-- `duration_until_next_active` and the openings of a schedule's windows.
use d_inference.Schedule.Active.{is_active_now}
use d_inference.Prelude.{
  ℕ, ◌+◌, ◌-◌, ◌*◌, ◌%◌, ◌≤◌, ◌<◌, ◌≡◌, Memᴰ, some, refl, ◌⊎◌, inl, ◌∙◌, arith, sym, inr, true, ap,
  false, ◌≢◌, All-Memᴰ,
}
use native.Mathlib.Decide.{dec_lt, ℕ_discrete}
use d_inference.Schedule.Week.{
  Weekday, num_days_from_monday, NaiveTime, time_to_secs, num_days_lt, weekday_plus,
  num_days-weekday_plus, has_day, IsTime,
}
use d_inference.Schedule.Config.{ParsedWindow, Schedule}
use d_inference.Schedule.Waits.{day_wait, scan_windows, u64_max, duration_until_next_active}
use d_inference.Schedule.Spec.{week, instant, IsSchedule, since_open, span, IsWindow}
use d_inference.Schedule.Coverage.{
  Nums, has_day→Memᴰ, Memᴰ→has_day, Nums-of, is_active_now-IsCovered,
}
use d_inference.Schedule.Opening.{
  until, until_later_today, until_day, day_wait_cases, day_wait_later, day_wait_today,
  scan_windows_found, scan_windows-le_wait,
}

-- How long until the window next opens on day `d`, at second `m` of a week.
unfoldable pub until_open : ParsedWindow → Weekday → ℕ → ℕ
unfolding instant
until_open w d m = (instant d w.start + week - m) % week

until_open_lt : (w : ParsedWindow) (d : Weekday) (m : ℕ) → until_open w d m < week
unfolding until_open
until_open_lt w d m = omega arith

-- A window opens on one of its days after `r` seconds, and no window opens sooner.
pub record IsNextOpening (s : Schedule) (m r : ℕ) : Type 0 where
  pub reached :
      (w : ParsedWindow) × Memᴰ w s.windows × (d : Weekday) × Memᴰ d w.days × (until_open w d m ≡ r)
  pub least :
      (w : ParsedWindow) (d : Weekday) → Memᴰ w s.windows → Memᴰ d w.days → r ≤ until_open w d m

-- Every day of every window is today, and today's opening has passed.
abbrev pub AllPassed : Schedule → Weekday → NaiveTime → Type 0
AllPassed s today time =
    (w : ParsedWindow) (d : Weekday)
    → Memᴰ w s.windows
    → Memᴰ d w.days
    → (num_days_from_monday d ≡ num_days_from_monday today)
      × (time_to_secs w.start ≤ time_to_secs time)

pub until_open-until :
    (w : ParsedWindow) (d today : Weekday) (time : NaiveTime)
    → until_open w d (instant today time)
      ≡ until
          (num_days_from_monday d)
          (time_to_secs w.start)
          (num_days_from_monday today)
          (time_to_secs time)
unfolding until_open until
until_open-until w d today time = refl

-- A wait that the loop computes is a time until an opening.
wait_reached :
    (w : ParsedWindow) (today : Weekday) (time : NaiveTime) (k r : ℕ)
    → Nums w time
    → k < 7
    → day_wait w today time k ≡ some r
    → (d : Weekday) × Memᴰ d w.days × (until_open w d (instant today time) ≡ r)
wait_reached w today time k r n lt h =
    let (has, cases) = day_wait_cases w today time k r n h in
    let (d, m, e) = has_day→Memᴰ w.days (weekday_plus today k) has in
    (d, m, meets d (e ∙ num_days-weekday_plus today k) cases)
  where
    meets :
        (d : Weekday)
        → num_days_from_monday d ≡ (num_days_from_monday today + k) % 7
        → ((k ≡ 0)
            × (time_to_secs time < time_to_secs w.start)
            × (r ≡ time_to_secs w.start - time_to_secs time))
          ⊎ ((0 < k) × (r ≡ 86400 - time_to_secs time + (k - 1) * 86400 + time_to_secs w.start))
        → until_open w d (instant today time) ≡ r
    meets d e (inl (z, late, q)) =
        until_open-until w d today time
        ∙ until_later_today (num_days_from_monday d) (time_to_secs w.start)
            (num_days_from_monday today) (time_to_secs time) (num_days_lt d) n.start_lt
            (omega (arith, num_days_lt today)) late
        ∙ sym q
    meets d e (inr (pos, q)) =
        until_open-until w d today time
        ∙ until_day (num_days_from_monday d) (time_to_secs w.start) (num_days_from_monday today)
            (time_to_secs time) k (num_days_lt today) n.start_lt n.now_lt pos lt e
        ∙ sym q

-- Every day of a window but a day that is today and has passed is met by the loop.
wait_met :
    (w : ParsedWindow) (today d : Weekday) (time : NaiveTime)
    → Nums w time
    → Memᴰ d w.days
    → ((num_days_from_monday d ≡ num_days_from_monday today)
        × (time_to_secs w.start ≤ time_to_secs time))
      ⊎ ((k : ℕ) × (k < 7) × (day_wait w today time k ≡ some (until_open w d (instant today time))))
wait_met w today d time n m = elim (dec_lt 0 k) [
  | yes later ↦ inr (
    k,
    omega arith,
    day_wait_later w today time k has later
        ∙ ap (λ (x : ℕ). some x)
            (sym (
              until_open-until w d today time
              ∙ until_day i s j t k (num_days_lt today) n.start_lt n.now_lt later (omega arith)
                  day)),
  )
  | no now ↦ elim (dec_lt t s) [
    | yes late ↦ inr (
      0,
      omega arith,
      day_wait_today w today time n
            (Memᴰ→has_day w.days (weekday_plus today 0) d m
              (omega (arith, day, num_days-weekday_plus today 0, num_days_lt d, num_days_lt today)))
            late
          ∙ ap (λ (x : ℕ). some x)
              (sym (
                until_open-until w d today time
                ∙ until_later_today i s j t (num_days_lt d) n.start_lt
                    (omega (arith, day, num_days_lt d, num_days_lt today)) late)),
    )
    | no passed ↦ inl (omega (arith, day, num_days_lt d, num_days_lt today), omega arith)
  ]
]
  where
    i : ℕ
    i = num_days_from_monday d

    j : ℕ
    j = num_days_from_monday today

    s : ℕ
    s = time_to_secs w.start

    t : ℕ
    t = time_to_secs time

    k : ℕ
    k = (i + 7 - j) % 7

    day : i ≡ (j + k) % 7
    day = omega (arith, num_days_lt d, num_days_lt today)

    has : has_day w.days (weekday_plus today k) ≡ true
    has = Memᴰ→has_day w.days (weekday_plus today k) d m (day ∙ sym (num_days-weekday_plus today k))

span_pos : (w : ParsedWindow) (time : NaiveTime) → Nums w time → 0 < span w
unfolding span
span_pos w time n = ground arith

-- Where the schedule is inactive, an opening that has passed today comes again only after a week.
passed_far :
    (w : ParsedWindow) (d today : Weekday) (time : NaiveTime)
    → Nums w time
    → ¬ (since_open w d (instant today time) < span w)
    → num_days_from_monday d ≡ num_days_from_monday today
    → time_to_secs w.start ≤ time_to_secs time
    → until_open w d (instant today time) + time_to_secs time ≡ week + time_to_secs w.start
unfolding until_open instant since_open
passed_far w d today time n closed e le =
    omega (arith, num_days_lt d, num_days_lt today, span_pos w time n, n.start_lt, n.now_lt)

day_wait_bound :
    (w : ParsedWindow) (today : Weekday) (time : NaiveTime) (k r : ℕ)
    → Nums w time
    → k < 7
    → day_wait w today time k ≡ some r
    → r + time_to_secs time ≤ 518400 + time_to_secs w.start
day_wait_bound w today time k r n lt h =
    omega (arith, (day_wait_cases w today time k r n h).1, n.start_lt, n.now_lt)

module _ (s : Schedule) (today : Weekday) (time : NaiveTime) (valid : IsSchedule s)
    (h : IsTime time) (closed : is_active_now s today time ≡ false) where
  nums : {w : ParsedWindow} → Memᴰ w s.windows → Nums w time
  nums {w} m = Nums-of w time (All-Memᴰ IsWindow s.windows valid m) h

  not_covered :
      {w : ParsedWindow} (d : Weekday)
      → Memᴰ w s.windows
      → Memᴰ d w.days
      → ¬ (since_open w d (instant today time) < span w)
  not_covered {w} d m md lt =
      let active = (is_active_now-IsCovered s today time valid h).1 (w, m, (d, md, lt)) in
      cc (active, closed)

  found : ℕ
  found = scan_windows s.windows today time u64_max

  found_least :
      (found ≢ u64_max)
      → (w : ParsedWindow) (d : Weekday) → Memᴰ w s.windows
      → Memᴰ d w.days
      → found ≤ until_open w d (instant today time)
  unfolding found
  found_least some_wait w d m md = elim (wait_met w today d time (nums m) md) [
    | inl (e, le) ↦ elim (scan_windows_found today time s.windows u64_max) [
      | inl never ↦ absurd (some_wait never)
      | inr (v, mv, k, lt, q) ↦ omega (
        arith,
        passed_far w d today time (nums m) (not_covered d m md) e le,
        day_wait_bound v today time k found (nums mv) lt q,
        (nums mv).start_lt,
        (nums m).now_lt,
        (nums m).start_lt,
      )
    ]
    | inr (k, lt, q) ↦
        scan_windows-le_wait today time s.windows u64_max k (until_open w d (instant today time)) m
          lt q
  ]

  found_reached :
      (found ≢ u64_max)
      → (w : ParsedWindow) × Memᴰ w s.windows
        × (d : Weekday) × Memᴰ d w.days
        × (until_open w d (instant today time) ≡ found)
  unfolding found
  found_reached some_wait = elim (scan_windows_found today time s.windows u64_max) [
    | inl never ↦ absurd (some_wait never)
    | inr (w, m, k, lt, q) ↦
        let (d, md, e) = wait_reached w today time k found (nums m) lt q in (w, m, d, md, e)
  ]

  found_never : found ≡ u64_max → AllPassed s today time
  unfolding found
  found_never never w d m md = elim (wait_met w today d time (nums m) md) [
    | inl passed ↦ passed
    | inr (k, lt, q) ↦ absurd (
        omega (
          arith,
          scan_windows-le_wait today time s.windows u64_max k (until_open w d (instant today time))
              m lt q,
          until_open_lt w d (instant today time),
        ))
  ]

-- Where both readings of the clock find the schedule inactive, `duration_until_next_active` is the time
-- from the second reading to the next opening of a window: some window opens on one of its days after
-- that time, and none sooner. The one exception is a schedule all of whose days are today and whose
-- openings today have passed: there the result is one hour.
pub duration_until_next_active-IsNextOpening :
    (s : Schedule) (day₀ : Weekday) (time₀ : NaiveTime) (today : Weekday) (time : NaiveTime)
    → IsSchedule s
    → IsTime time
    → is_active_now s day₀ time₀ ≡ false
    → is_active_now s today time ≡ false
    → IsNextOpening s (instant today time) (duration_until_next_active s day₀ time₀ today time)
      ⊎ (AllPassed s today time × (duration_until_next_active s day₀ time₀ today time ≡ 3600))
unfolding duration_until_next_active found
duration_until_next_active-IsNextOpening s day₀ time₀ today time v h closed₀ closed =
    elim (ℕ_discrete (found s today time v h closed) u64_max) [
      | yes never ↦ inr (found_never s today time v h closed never, ground arith)
      | no some_wait ↦
          let e : duration_until_next_active s day₀ time₀ today time
              ≡ found s today time v h closed =
            ground arith in
          inl (record {
            reached = rw e (found_reached s today time v h closed some_wait);
            least = rw e (found_least s today time v h closed some_wait);
          })
    ]
