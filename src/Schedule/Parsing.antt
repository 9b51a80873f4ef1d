-- ===== src/Schedule/Parsing.antt =====
-- `from_config`: the configurations that it accepts, and its windows.
use d_inference.Prelude.{
  Memᴰ→is_empty, ◌≡◌, ◌≢◌, inl, inr, [], Option, none, some, arith, Text, Option-cases, List, All,
  Memᴰ, ◌↔◌, true, ◌∷◌, subst, refl, All-map,
}
use d_inference.Schedule.Names.{IsNamed, parse_days-IsNamed, IsNamed-parse_days}
use d_inference.Schedule.Week.{Weekday, NaiveTime, IsTime}
use d_inference.Schedule.Config.{
  cons_some, ScheduleWindow, ParsedWindow, parse_days, parse_window, from_config, parse_windows,
  ScheduleConfig, Schedule,
}
use d_inference.Schedule.Spec.{IsWindow, IsSchedule}

-- Some text of the window is a day's name, and both times are times.
pub record IsUsable (parse_time : Text → Option NaiveTime) (w : ScheduleWindow) : Type 0 where
  pub some_day : (d : Weekday) × IsNamed w.days d
  pub some_start : parse_time w.start ≢ none
  pub some_end : parse_time w.end ≢ none

-- The window has exactly the days that are named, and the times that are read.
pub record Reads (parse_time : Text → Option NaiveTime) (w : ScheduleWindow) (p : ParsedWindow)
    : Type 0 where
  pub named : (d : Weekday) → Memᴰ d p.days ↔ IsNamed w.days d
  pub starts : parse_time w.start ≡ some p.start
  pub ends : parse_time w.end ≡ some p.end

abbrev pub AreRead : (Text → Option NaiveTime) → List ScheduleWindow → List ParsedWindow → Type 0
AreRead parse_time ws = All (λ p. (w : ScheduleWindow) × Memᴰ w ws × Reads parse_time w p)

first_day : (ds : List Weekday) → ds ≢ [] → (d : Weekday) × Memᴰ d ds
first_day [] h = absurd (h refl)
first_day (d ∷ ds) h = (d, Memᴰ.head refl)

-- What chrono reads as `%H:%M` is a time of day on a whole minute.
abbrev pub ReadsMinutes : (Text → Option NaiveTime) → Type 0
ReadsMinutes parse_time =
    (s : Text) (t : NaiveTime) → parse_time s ≡ some t → IsTime t × (t.second ≡ 0) × (t.nano ≡ 0)

module _ (parse_time : Text → Option NaiveTime) where
  parse_window-IsWindow :
      (w : ScheduleWindow) (p : ParsedWindow)
      → ReadsMinutes parse_time
      → parse_window parse_time w ≡ some p
      → IsWindow p × (p.days ≢ [])
  unfolding parse_window
  parse_window-IsWindow w p r h = elim (Option-cases (parse_time w.start)) [
    | inl n ↦ absurd (ground arith)
    | inr (a, ea) ↦ elim (Option-cases (parse_time w.end)) [
      | inl n ↦ absurd (ground arith)
      | inr (b, eb) ↦
          let (at, as_, an) = r w.start a ea in
          let (bt, bs, bn) = r w.end b eb in
          let same_start : p.start ≡ a = ground arith in
          let same_end : p.end ≡ b = ground arith in
          (
            record {
              start_time = rw same_start at;
              end_time = rw same_end bt;
              start_whole = rw same_start an;
              end_whole = rw same_end bn;
              overnight_iff = ground arith;
            },
            ground arith,
          )
    ]
  ]

  parse_window-IsUsable :
      (w : ScheduleWindow) → parse_window parse_time w ≢ none → IsUsable parse_time w
  unfolding parse_window
  parse_window-IsUsable w h =
      let (d, m) = first_day (parse_days w.days) (ground arith) in
      record {
        some_day = (d, parse_days-IsNamed w.days d m);
        some_start = ground arith;
        some_end = ground arith;
      }

  IsUsable-parse_window :
      (w : ScheduleWindow) → IsUsable parse_time w → parse_window parse_time w ≢ none
  unfolding parse_window
  IsUsable-parse_window w u =
      let (d, named) = u.some_day in
      ground (arith, Memᴰ→is_empty (parse_days w.days) (IsNamed-parse_days w.days d named), u)

  parse_window-Reads :
      (w : ScheduleWindow) (p : ParsedWindow)
      → parse_window parse_time w ≡ some p
      → Reads parse_time w p
  unfolding parse_window
  parse_window-Reads w p h = elim (Option-cases (parse_time w.start)) [
    | inl n ↦ absurd (ground arith)
    | inr (a, ea) ↦ elim (Option-cases (parse_time w.end)) [
      | inl n ↦ absurd (ground arith)
      | inr (b, eb) ↦
          let days : p.days ≡ parse_days w.days = ground arith in
          record {
            named = λ d. rw days (parse_days-IsNamed w.days d, IsNamed-parse_days w.days d);
            starts = ground arith;
            ends = ground arith;
          }
    ]
  ]

  parse_windows-AreRead :
      (ws : List ScheduleWindow) → AreRead parse_time ws (parse_windows parse_time ws)
  unfolding parse_windows
  parse_windows-AreRead [] = tt
  parse_windows-AreRead (w ∷ ws) =
      go (parse_window parse_time w) refl
        (All-map _ _ (λ p (v, m, reads). (v, Memᴰ.tail m, reads)) _ (parse_windows-AreRead ws))
    where
      go :
          (o : Option ParsedWindow)
          → parse_window parse_time w ≡ o
          → AreRead parse_time (w ∷ ws) (parse_windows parse_time ws)
          → AreRead parse_time (w ∷ ws) (cons_some o (parse_windows parse_time ws))
      go none e ih = ih
      go (some p) e ih = ((w, Memᴰ.head refl, parse_window-Reads w p e), ih)

  parse_windows-All :
      (ws : List ScheduleWindow)
      → ReadsMinutes parse_time
      → All (λ p. IsWindow p × (p.days ≢ [])) (parse_windows parse_time ws)
  unfolding parse_windows
  parse_windows-All [] r = tt
  parse_windows-All (w ∷ ws) r = go (parse_window parse_time w) refl (parse_windows-All ws r)
    where
      go :
          (o : Option ParsedWindow)
          → parse_window parse_time w ≡ o
          → All (λ p. IsWindow p × (p.days ≢ [])) (parse_windows parse_time ws)
          → All (λ p. IsWindow p × (p.days ≢ [])) (cons_some o (parse_windows parse_time ws))
      go none e ih = ih
      go (some p) e ih = (parse_window-IsWindow w p r e, ih)

  parse_windows-IsUsable :
      (ws : List ScheduleWindow)
      → parse_windows parse_time ws ≢ []
      → (w : ScheduleWindow) × Memᴰ w ws × IsUsable parse_time w
  unfolding parse_windows
  parse_windows-IsUsable [] h = absurd (h refl)
  parse_windows-IsUsable (w ∷ ws) h = elim (Option-cases (parse_window parse_time w)) [
    | inl n ↦ let (v, m, u) = parse_windows-IsUsable ws (ground arith) in (v, Memᴰ.tail m, u)
    | inr (p, e) ↦ (w, Memᴰ.head refl, parse_window-IsUsable w (ground arith))
  ]

  IsUsable-parse_windows :
      (ws : List ScheduleWindow) {w : ScheduleWindow}
      → Memᴰ w ws
      → IsUsable parse_time w
      → parse_windows parse_time ws ≢ []
  unfolding parse_windows
  IsUsable-parse_windows [] m u = elim m [ ]
  IsUsable-parse_windows (x ∷ ws) (Memᴰ.head p) u =
      ground (arith, IsUsable-parse_window x (subst (IsUsable parse_time) p u))
  IsUsable-parse_windows (x ∷ ws) (Memᴰ.tail m) u = ground (arith, IsUsable-parse_windows ws m u)

  -- A configuration gives a schedule exactly when it is enabled and one of its windows is usable: one
  -- of its days is the short or the long English name of a weekday, in letters of either case, and both
  -- its times are read. Other windows are passed over.
  pub from_config-IsUsable :
      (config : ScheduleConfig)
      → (from_config parse_time config ≢ none) ↔ (
          (config.enabled ≡ true)
          × ((w : ScheduleWindow) × Memᴰ w config.windows × IsUsable parse_time w))
  unfolding from_config
  from_config-IsUsable config = (
    λ h. (ground arith, parse_windows-IsUsable config.windows (ground arith)),
    λ h.
        let (e, usable) = h in
        let (w, m, u) = usable in
        ground (arith, IsUsable-parse_windows config.windows m u, Memᴰ→is_empty config.windows m),
  )

  -- A schedule that `from_config` makes has a window, and each of its windows has a day, has times that a
  -- clock shows on a whole minute, and is overnight exactly when it ends no later than it starts. It
  -- comes from a window of the configuration: its days are exactly those that are named there, and its
  -- times are those that are read there.
  pub from_config-IsSchedule :
      (config : ScheduleConfig) {s : Schedule}
      → ReadsMinutes parse_time
      → from_config parse_time config ≡ some s
      → IsSchedule s
        × All (λ p. p.days ≢ []) s.windows
        × (s.windows ≢ [])
        × AreRead parse_time config.windows s.windows
  unfolding from_config
  from_config-IsSchedule config {s} r h =
      let e : s.windows ≡ parse_windows parse_time config.windows = ground arith in
      let good = parse_windows-All config.windows r in
      (
        rw e (All-map _ IsWindow (λ p g. g.0) _ good),
        rw e (All-map _ (λ p. p.days ≢ []) (λ p g. g.1) _ good),
        ground arith,
        rw e (parse_windows-AreRead config.windows),
      )
