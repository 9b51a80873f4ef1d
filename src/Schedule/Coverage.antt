-- ===== src/Schedule/Coverage.antt =====
-- `is_active_now` and the arcs of the week.
use d_inference.Prelude.{
  ℕ, ◌+◌, ◌-◌, ◌*◌, ◌%◌, ◌≤◌, ◌<◌, ◌≡◌, refl, sym, ap, subst, ◌∙◌, ◌⊎◌, inl, inr, true, List, [],
  ◌∷◌, Memᴰ, arith, ==_iff, ◌==◌, Bool-cases, ◌&&◌, ◌||◌, not, ltb, All, ◌↔◌,
}
use d_inference.Schedule.Week.{
  Weekday, num_days_from_monday, num_days_lt, prev_weekday, num_days-prev_weekday, has_day,
  NaiveTime, IsTime, time_to_secs, time_to_secs_lt, time_lt, time_le,
}
use d_inference.Schedule.Config.{ParsedWindow, Schedule}
use d_inference.Schedule.Active.{window_active, any_active, is_active_now}
use d_inference.Schedule.Spec.{
  week, instant, span, since_open, Covers, IsWindow, IsSchedule, IsCovered,
}

pub has_day→Memᴰ :
    (days : List Weekday) (x : Weekday)
    → has_day days x ≡ true
    → (d : Weekday) × Memᴰ d days × (num_days_from_monday d ≡ num_days_from_monday x)
unfolding has_day
has_day→Memᴰ [] x h = cc
has_day→Memᴰ (d ∷ ds) x h = elim (Bool-cases (num_days_from_monday d == num_days_from_monday x)) [
  | inl e ↦ (d, Memᴰ.head refl, (==_iff _ _).0 e)
  | inr e ↦ let (c, m, q) = has_day→Memᴰ ds x (ground arith) in (c, Memᴰ.tail m, q)
]

pub Memᴰ→has_day :
    (days : List Weekday) (x d : Weekday)
    → Memᴰ d days
    → num_days_from_monday d ≡ num_days_from_monday x
    → has_day days x ≡ true
unfolding has_day
Memᴰ→has_day [] x d m e = elim m [ ]
Memᴰ→has_day (y ∷ ds) x d (Memᴰ.head p) e =
    rw ((==_iff _ _).1 (ap num_days_from_monday (sym p) ∙ e))
Memᴰ→has_day (y ∷ ds) x d (Memᴰ.tail m) e = ground (arith, Memᴰ→has_day ds x d m e)

-- Times compare as their seconds do, against a time on a whole second.
pub time_lt_whole :
    (a b : NaiveTime) → b.nano ≡ 0 → time_lt a b ≡ ltb (time_to_secs a) (time_to_secs b)
unfolding time_lt
time_lt_whole a b h = ground arith

-- How long ago a window opened, if that is less than a day: with the days as numbers, `i` and `s` for
-- the opening, `j` and `t` for the present.
unfoldable pub since : ℕ → ℕ → ℕ → ℕ → ℕ
since i s j t = (j * 86400 + t + week - (i * 86400 + s)) % week

pub since_recent :
    (i s j t : ℕ)
    → i < 7
    → j < 7
    → s < 86400
    → t < 86400
    → since i s j t < 86400
    → ((i ≡ j) × (s ≤ t) × (since i s j t ≡ t - s))
      ⊎ ((i ≡ (j + 6) % 7) × (t < s) × (since i s j t ≡ 86400 - s + t))
unfolding since
since_recent i s j t hi hj hs ht h = omega arith

pub since_today :
    (i s j t : ℕ) → i < 7 → s < 86400 → t < 86400 → i ≡ j → s ≤ t → since i s j t ≡ t - s
unfolding since
since_today i s j t hi hs ht e h = omega arith

pub since_yesterday :
    (i s j t : ℕ)
    → i < 7
    → j < 7
    → s < 86400
    → t < 86400
    → i ≡ (j + 6) % 7
    → since i s j t ≡ (86400 - s + t) % week
unfolding since
since_yesterday i s j t hi hj hs ht e = omega arith

pub since_open-since :
    (w : ParsedWindow) (d today : Weekday) (time : NaiveTime)
    → since_open w d (instant today time)
      ≡ since
          (num_days_from_monday d)
          (time_to_secs w.start)
          (num_days_from_monday today)
          (time_to_secs time)
unfolding since_open since
since_open-since w d today time = refl

-- The facts about a window, in numbers.
pub record Nums (w : ParsedWindow) (time : NaiveTime) : Type 0 where
  pub start_lt : time_to_secs w.start < 86400
  pub end_lt : time_to_secs w.end < 86400
  pub now_lt : time_to_secs time < 86400
  pub le_start : time_le w.start time ≡ not (ltb (time_to_secs time) (time_to_secs w.start))
  pub lt_start : time_lt time w.start ≡ ltb (time_to_secs time) (time_to_secs w.start)
  pub lt_end : time_lt time w.end ≡ ltb (time_to_secs time) (time_to_secs w.end)
  pub overnight : w.overnight ≡ not (ltb (time_to_secs w.start) (time_to_secs w.end))

pub Nums-of : (w : ParsedWindow) (time : NaiveTime) → IsWindow w → IsTime time → Nums w time
unfolding time_le
Nums-of w time v h = record {
  start_lt = time_to_secs_lt w.start v.start_time;
  end_lt = time_to_secs_lt w.end v.end_time;
  now_lt = time_to_secs_lt time h;
  le_start = ap not (time_lt_whole time w.start v.start_whole);
  lt_start = time_lt_whole time w.start v.start_whole;
  lt_end = time_lt_whole time w.end v.end_whole;
  overnight = v.overnight_iff ∙ ap not (time_lt_whole w.start w.end v.end_whole);
}

pub span_le : (w : ParsedWindow) (time : NaiveTime) → Nums w time → span w ≤ 86400
unfolding span
span_le w time n = ground arith

window_active-Covers :
    (w : ParsedWindow) (today : Weekday) (time : NaiveTime)
    → Nums w time
    → window_active w today time ≡ true
    → Covers w (instant today time)
unfolding window_active span
window_active-Covers w today time n h =
    elim (Bool-cases
      (has_day w.days today && time_le w.start time && (w.overnight || time_lt time w.end))) [
        | inl now ↦
            let (d, m, e) = has_day→Memᴰ w.days today (ground arith) in
            (
              d,
              m,
              ground (
                arith,
                since_open-since w d today time,
                num_days_lt d,
                since_today (num_days_from_monday d) (time_to_secs w.start)
                    (num_days_from_monday today) (time_to_secs time),
              ),
            )
        | inr before ↦
            let (d, m, e) = has_day→Memᴰ w.days (prev_weekday today) (ground arith) in
            (
              d,
              m,
              ground (
                arith,
                since_open-since w d today time,
                num_days_lt d,
                num_days_lt today,
                num_days-prev_weekday today,
                since_yesterday (num_days_from_monday d) (time_to_secs w.start)
                    (num_days_from_monday today) (time_to_secs time),
              ),
            )
      ]

Covers-window_active :
    (w : ParsedWindow) (today : Weekday) (time : NaiveTime)
    → Nums w time
    → Covers w (instant today time)
    → window_active w today time ≡ true
unfolding window_active span
Covers-window_active w today time n (d, m, h) =
    let i = num_days_from_monday d in
    let j = num_days_from_monday today in
    let near : since i (time_to_secs w.start) j (time_to_secs time) < 86400 =
      omega (arith, span_le w time n, since_open-since w d today time) in
    elim (since_recent i (time_to_secs w.start) j (time_to_secs time) (num_days_lt d)
      (num_days_lt today) n.start_lt n.now_lt near) [
        | inl (e, le, eq) ↦
            ground (arith, Memᴰ→has_day w.days today d m e, since_open-since w d today time)
        | inr (e, lt, eq) ↦ ground (
          arith,
          Memᴰ→has_day w.days (prev_weekday today) d m (e ∙ sym (num_days-prev_weekday today)),
          since_open-since w d today time,
        )
      ]

any_active-covered :
    (ws : List ParsedWindow) (today : Weekday) (time : NaiveTime)
    → IsTime time
    → All IsWindow ws
    → any_active ws today time ≡ true
    → (w : ParsedWindow) × Memᴰ w ws × Covers w (instant today time)
unfolding any_active
any_active-covered [] today time h v e = cc
any_active-covered (x ∷ ws) today time h (v, vs) e =
    elim (Bool-cases (window_active x today time)) [
      | inl a ↦ (x, Memᴰ.head refl, window_active-Covers x today time (Nums-of x time v h) a)
      | inr a ↦
          let (w, m, c) = any_active-covered ws today time h vs (ground arith) in
          (w, Memᴰ.tail m, c)
    ]

covered-any_active :
    (ws : List ParsedWindow) (today : Weekday) (time : NaiveTime) {w : ParsedWindow}
    → IsTime time
    → All IsWindow ws
    → Memᴰ w ws
    → Covers w (instant today time)
    → any_active ws today time ≡ true
unfolding any_active
covered-any_active [] today time h v m c = elim m [ ]
covered-any_active (x ∷ ws) today time h (v, vs) (Memᴰ.head p) c =
    let active =
      Covers-window_active x today time (Nums-of x time v h)
        (subst (λ u. Covers u (instant today time)) p c) in
    ground arith
covered-any_active (x ∷ ws) today time h (v, vs) (Memᴰ.tail m) c =
    ground (arith, covered-any_active ws today time h vs m c)

-- The code calls a schedule active at a weekday and a time of day exactly when that second of the week
-- lies in the arc of one of its windows on one of its days, overnight arcs and the turn of the week
-- included. The windows are as `from_config` makes them, and the time is one that a clock shows.
pub is_active_now-IsCovered :
    (s : Schedule) (today : Weekday) (time : NaiveTime)
    → IsSchedule s
    → IsTime time
    → (is_active_now s today time ≡ true) ↔ IsCovered s (instant today time)
unfolding is_active_now
is_active_now-IsCovered s today time v h = (
  any_active-covered s.windows today time h v,
  λ (w, m, c). covered-any_active s.windows today time h v m c,
)
