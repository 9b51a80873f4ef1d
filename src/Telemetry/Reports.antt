-- ===== src/Telemetry/Reports.antt =====
-- What is reported of a line, and how much of it.
use d_inference.Prelude.{
  ◌≡◌, refl, sym, ap, ◌∙◌, subst, ◌⊎◌, inl, inr, true, ◌||◌, Option, none, some, [], ◌∷◌, ◌++◌,
  arith, leb, leb→le, Bool-cases, length, take, drop, All, Text, codes, starts_with, contains, ℕ,
  ◌<◌, ◌≤◌, suc, zero,
}
use d_inference.Telemetry.Scraper.{
  Source, Severity, error, Stamp, TelemetryEvent, new_event, with_field, failed, classify, truncate,
  is_char_boundary, reported, report_as, event_for,
}

-- Text of ASCII characters.
unfoldable pub IsAscii : Text → Type 0
IsAscii = All (λ c. c < 128)

drop-is_char_boundary : (n : ℕ) (s : Text) → IsAscii s → is_char_boundary (drop n s) ≡ true
unfolding IsAscii
drop-is_char_boundary zero [] h = refl
drop-is_char_boundary zero (c ∷ s) (hc, h) = ground (arith, hc)
drop-is_char_boundary (suc n) [] h = refl
drop-is_char_boundary (suc n) (c ∷ s) (hc, h) = drop-is_char_boundary n s h

-- A short line as it is; of a longer one the first bytes, with a mark behind them.
abbrev pub IsShort : Text → Text → Type 0
IsShort line message =
    ((length line ≤ 2048) × (message ≡ line))
    ⊎ ((2048 < length line) × (message ≡ take 2048 line ++ codes "... [truncated]"))

truncate-IsShort :
    (line : Text) → IsAscii line → (t : Text) × (truncate line 2048 ≡ some t) × IsShort line t
unfolding truncate
truncate-IsShort line h = elim (Bool-cases (leb (length line) 2048)) [
  | inl y ↦ (line, rw y refl, inl (leb→le _ _ y, refl))
  | inr n ↦ (
    take 2048 line ++ codes "... [truncated]",
    rw (n, drop-is_char_boundary 2048 line h) refl,
    inr (ground (arith, n), refl),
  )
]

event_message :
    (stamp : Stamp) (source : Source) (component : Text) (model : Option Text) (severity : Severity)
    (reason t : Text)
    → (ev : TelemetryEvent) × (report_as stamp source component model severity reason (some t)
        ≡ reported ev)
      × (ev.message ≡ t)
      × (ev.severity ≡ severity)
unfolding with_field new_event
event_message stamp source component none severity reason t = (_, refl, refl, refl)
event_message stamp source component (some m) severity reason t = (_, refl, refl, refl)

critical-failed :
    (line : Text)
    → contains line (codes "CRITICAL") || contains line (codes "FATAL") ≡ true
    → (reason : Text) × (classify line ≡ failed reason)
unfolding classify
critical-failed line h =
    elim (Bool-cases (starts_with line (codes "Traceback (most recent call last)"))) [
      | inl y ↦ (codes "python_traceback", rw y refl)
      | inr n ↦ (codes "critical_log", rw (n, h) refl)
    ]

-- A line of ASCII characters that says CRITICAL or FATAL is reported as an error, whatever else it
-- says: its event holds the line itself if that has 2048 bytes or fewer, and otherwise its first 2048
-- bytes with the mark "... [truncated]" behind them.
pub event_for-IsShort :
    (stamp : Stamp) (source : Source) (component : Text) (model : Option Text) (line : Text)
    → IsAscii line
    → contains line (codes "CRITICAL") || contains line (codes "FATAL") ≡ true
    → (ev : TelemetryEvent) × (event_for stamp source component model line (classify line)
        ≡ reported ev)
      × (ev.severity ≡ error)
      × IsShort line ev.message
unfolding event_for
event_for-IsShort stamp source component model line ascii critical =
    let (reason, is_failed) = critical-failed line critical in
    let (t, cut, short) = truncate-IsShort line ascii in
    let (ev, made, message, severity) = event_message stamp source component model error reason t in
    (
      ev,
      ap (event_for stamp source component model line) is_failed
          ∙ ap (report_as stamp source component model error reason) cut
          ∙ made,
      severity,
      subst (IsShort line) (sym message) short,
    )
