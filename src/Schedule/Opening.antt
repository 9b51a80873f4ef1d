-- ===== src/Schedule/Opening.antt =====
-- The scan of `duration_until_next_active`, window by window and day by day.
use d_inference.Prelude.{
  ℕ, ◌+◌, ◌-◌, ◌*◌, ◌%◌, ◌≤◌, ◌<◌, ◌≡◌, some, Memᴰ, arith, true, ◌⊎◌, List, Option, inl, suc, subst,
  zero, ◌∙◌, ◌∷◌, [], ap, inr, sym, refl,
}
use native.Mathlib.Decide.{ℕ_discrete}
use d_inference.Schedule.Week.{
  Weekday, NaiveTime, time_to_secs, weekday_plus, has_day, secs_until_midnight_lem,
}
use d_inference.Schedule.Config.{ParsedWindow}
use d_inference.Schedule.Waits.{day_wait, keep_min, scan_days, scan_windows}
use d_inference.Schedule.Spec.{week}
use d_inference.Schedule.Coverage.{Nums}

-- How long until the opening on day number `i` at `s`, for a present of day `j` and time `t`.
unfoldable pub until : ℕ → ℕ → ℕ → ℕ → ℕ
until i s j t = (i * 86400 + s + week - (j * 86400 + t)) % week

pub until_later_today : (i s j t : ℕ) → i < 7 → s < 86400 → i ≡ j → t < s → until i s j t ≡ s - t
unfolding until
until_later_today i s j t hi hs e h = omega arith

pub until_day :
    (i s j t k : ℕ)
    → j < 7
    → s < 86400
    → t < 86400
    → 0 < k
    → k < 7
    → i ≡ (j + k) % 7
    → until i s j t ≡ 86400 - t + (k - 1) * 86400 + s
unfolding until
until_day i s j t k hj hs ht hk hk7 e = omega arith

pub day_wait_cases :
    (w : ParsedWindow) (today : Weekday) (time : NaiveTime) (k r : ℕ)
    → Nums w time
    → day_wait w today time k ≡ some r
    → (has_day w.days (weekday_plus today k) ≡ true)
      × (((k ≡ 0)
            × (time_to_secs time < time_to_secs w.start)
            × (r ≡ time_to_secs w.start - time_to_secs time))
          ⊎ ((0 < k) × (r ≡ 86400 - time_to_secs time + (k - 1) * 86400 + time_to_secs w.start)))
unfolding day_wait
day_wait_cases w today time k r n h = ground (arith, secs_until_midnight_lem time)

-- The loops keep the least of the waits that they meet.
keep_min-le : (o : Option ℕ) (m : ℕ) → keep_min o m ≤ m
keep_min-le o m = ground arith

keep_min-le_some : (r m : ℕ) → keep_min (some r) m ≤ r
keep_min-le_some r m = ground arith

keep_min_found : (o : Option ℕ) (m : ℕ) → (keep_min o m ≡ m) ⊎ (o ≡ some (keep_min o m))
keep_min_found o m = ground arith

module _ (w : ParsedWindow) (today : Weekday) (time : NaiveTime) where
  scan_days-le : (left k m : ℕ) → scan_days w today time left k m ≤ m
  unfolding scan_days
  scan_days-le zero k m = omega arith
  scan_days-le (suc left) k m =
      let m' = keep_min (day_wait w today time k) m in
      omega (arith, keep_min-le (day_wait w today time k) m, scan_days-le left (k + 1) m')

  scan_days-le_wait :
      (left k m j r : ℕ)
      → k ≤ j
      → j < k + left
      → day_wait w today time j ≡ some r
      → scan_days w today time left k m ≤ r
  unfolding scan_days
  scan_days-le_wait zero k m j r lo hi e = absurd (omega arith)
  scan_days-le_wait (suc left) k m j r lo hi e =
      let m' = keep_min (day_wait w today time k) m in
      elim (ℕ_discrete j k) [
        | yes p ↦
            let here : day_wait w today time k ≡ some r =
              subst (λ i. day_wait w today time i ≡ some r) p e in
            omega (
              arith,
              scan_days-le left (k + 1) m',
              keep_min-le_some r m,
              ap (λ o. keep_min o m) here,
            )
        | no p ↦ scan_days-le_wait left (k + 1) m' j r (omega arith) (omega arith) e
      ]

  scan_days_found :
      (left k m : ℕ)
      → (scan_days w today time left k m ≡ m)
        ⊎ ((j : ℕ) × (j < k + left)
            × (day_wait w today time j ≡ some (scan_days w today time left k m)))
  unfolding scan_days
  scan_days_found zero k m = inl refl
  scan_days_found (suc left) k m =
      let m' = keep_min (day_wait w today time k) m in
      elim (scan_days_found left (k + 1) m') [
        | inl e ↦ elim (keep_min_found (day_wait w today time k) m) [
          | inl same ↦ inl (e ∙ same)
          | inr q ↦ inr (k, omega arith, q ∙ ap (λ (n : ℕ). some n) (sym e))
        ]
        | inr (j, lt, q) ↦ inr (j, omega arith, q)
      ]

module _ (today : Weekday) (time : NaiveTime) where
  scan_windows-le : (ws : List ParsedWindow) (m : ℕ) → scan_windows ws today time m ≤ m
  unfolding scan_windows
  scan_windows-le [] m = omega arith
  scan_windows-le (w ∷ ws) m =
      omega
        (arith, scan_days-le w today time 7 0 m, scan_windows-le ws (scan_days w today time 7 0 m))

  pub scan_windows-le_wait :
      (ws : List ParsedWindow) {w : ParsedWindow} (m j r : ℕ)
      → Memᴰ w ws
      → j < 7
      → day_wait w today time j ≡ some r
      → scan_windows ws today time m ≤ r
  unfolding scan_windows
  scan_windows-le_wait [] m j r mem lt e = elim mem [ ]
  scan_windows-le_wait (x ∷ ws) m j r (Memᴰ.head p) lt e =
      let here = subst (λ v. day_wait v today time j ≡ some r) p e in
      omega (
        arith,
        scan_days-le_wait x today time 7 0 m j r (omega arith) (omega arith) here,
        scan_windows-le ws (scan_days x today time 7 0 m),
      )
  scan_windows-le_wait (x ∷ ws) m j r (Memᴰ.tail mem) lt e =
      scan_windows-le_wait ws (scan_days x today time 7 0 m) j r mem lt e

  pub scan_windows_found :
      (ws : List ParsedWindow) (m : ℕ)
      → (scan_windows ws today time m ≡ m)
        ⊎ ((w : ParsedWindow) × Memᴰ w ws
            × (j : ℕ) × (j < 7)
            × (day_wait w today time j ≡ some (scan_windows ws today time m)))
  unfolding scan_windows
  scan_windows_found [] m = inl refl
  scan_windows_found (w ∷ ws) m =
      let m' = scan_days w today time 7 0 m in
      elim (scan_windows_found ws m') [
        | inl e ↦ elim (scan_days_found w today time 7 0 m) [
          | inl same ↦ inl (e ∙ same)
          | inr (j, lt, q) ↦
              inr (w, Memᴰ.head refl, j, omega arith, q ∙ ap (λ (n : ℕ). some n) (sym e))
        ]
        | inr (v, mem, j, lt, q) ↦ inr (v, Memᴰ.tail mem, j, lt, q)
      ]

-- The two ways in which a day gives a wait.
pub day_wait_today :
    (w : ParsedWindow) (today : Weekday) (time : NaiveTime)
    → Nums w time
    → has_day w.days (weekday_plus today 0) ≡ true
    → time_to_secs time < time_to_secs w.start
    → day_wait w today time 0 ≡ some (time_to_secs w.start - time_to_secs time)
unfolding day_wait
day_wait_today w today time n has lt = ground arith

pub day_wait_later :
    (w : ParsedWindow) (today : Weekday) (time : NaiveTime) (k : ℕ)
    → has_day w.days (weekday_plus today k) ≡ true
    → 0 < k
    → day_wait w today time k
      ≡ some (86400 - time_to_secs time + (k - 1) * 86400 + time_to_secs w.start)
unfolding day_wait
day_wait_later w today time k has pos = ground (arith, secs_until_midnight_lem time)
