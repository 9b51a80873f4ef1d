-- ===== src/Telemetry/Scraper.antt =====
-- Error lines of child processes (provider/src/telemetry/stderr_scraper.rs), and the events made of
-- them (event.rs).
use d_inference.Prelude.{
  Bool, true, not, ◌&&◌, ◌||◌, Option, none, some, List, [], ◌∷◌, ◌++◌, ltb, leb, if◌then◌else◌,
  length, take, drop, Text, codes, starts_with, contains, to_ascii_lowercase, ℕ,
}
use d_inference.Coordinator.StatusMap.{insert}

pub data Source : Type 0 where
  coordinator : Source
  provider : Source
  app : Source
  console : Source
  bridge : Source

pub data Severity : Type 0 where
  debug : Severity
  info : Severity
  warn : Severity
  error : Severity
  fatal : Severity

pub data Kind : Type 0 where
  panic : Kind
  http_error : Kind
  protocol_error : Kind
  backend_crash : Kind
  attestation_failure : Kind
  inference_error : Kind
  runtime_mismatch : Kind
  connectivity : Kind
  log : Kind
  custom : Kind

-- The values of the fields are texts here.
pub record TelemetryEvent : Type 0 where
  pub id : Text
  pub timestamp : Text
  pub source : Source
  pub severity : Severity
  pub kind : Kind
  pub version : Text
  pub machine_id : Text
  pub account_id : Text
  pub request_id : Text
  pub session_id : Text
  pub message : Text
  pub fields : List (Text × Text)
  pub stack : Text

-- What `TelemetryEvent::new` takes from the uuid and chrono crates and from the process.
pub record Stamp : Type 0 where
  pub id : Text
  pub timestamp : Text
  pub session_id : Text

unfoldable pub new_event : Stamp → Source → Severity → Kind → Text → TelemetryEvent
new_event stamp source severity kind message = record {
  id = stamp.id;
  timestamp = stamp.timestamp;
  source = source;
  severity = severity;
  kind = kind;
  version = [];
  machine_id = [];
  account_id = [];
  request_id = [];
  session_id = stamp.session_id;
  message = message;
  fields = [];
  stack = [];
}

unfoldable pub with_field : Text → Text → TelemetryEvent → TelemetryEvent
with_field key value event = record event { fields = insert key value event.fields }

pub data Classification : Type 0 where
  ignored : Classification
  warned : Text → Classification
  failed : Text → Classification

unfoldable pub classify : Text → Classification
classify line =
    let lower = to_ascii_lowercase line in
    if starts_with line (codes "Traceback (most recent call last)")
    then failed (codes "python_traceback")
    else if contains line (codes "CRITICAL") || contains line (codes "FATAL")
    then failed (codes "critical_log")
    else if contains lower (codes "runtimeerror") || contains lower (codes "segmentation fault")
    then failed (codes "runtime_error")
    else if contains lower (codes "out of memory") || contains lower (codes "oom")
    then failed (codes "oom")
    else if contains line (codes "WARNING") || contains line (codes "warn:")
    then warned (codes "warning_log")
    else ignored

-- A byte within a character of UTF-8, behind its first.
abbrev pub is_continuation : ℕ → Bool
is_continuation c = leb 128 c && ltb c 192

-- Whether a slice may end before the rest of a text.
abbrev pub is_char_boundary : Text → Bool
is_char_boundary [] = true
is_char_boundary (c ∷ rest) = not (is_continuation c)

-- `none` is a panic: `&s[..max]` cuts through a character.
unfoldable pub truncate : Text → ℕ → Option Text
truncate s max =
    if leb (length s) max
    then some s
    else if is_char_boundary (drop max s)
    then some (take max s ++ codes "... [truncated]")
    else none

pub data Reported : Type 0 where
  panicked : Reported
  no_event : Reported
  reported : TelemetryEvent → Reported

abbrev pub with_model : Option Text → TelemetryEvent → TelemetryEvent
with_model none event = event
with_model (some m) event = with_field (codes "model") m event

abbrev pub report_as :
    Stamp → Source → Text → Option Text → Severity → Text → Option Text → Reported
report_as stamp source component model severity reason none = panicked
report_as stamp source component model severity reason (some truncated) = reported (
    with_model model (
      with_field (codes "reason") reason
        (with_field (codes "component") component (new_event stamp source severity log truncated))))

unfoldable pub event_for : Stamp → Source → Text → Option Text → Text → Classification → Reported
unfolding truncate
event_for stamp source component model line ignored = no_event
event_for stamp source component model line (warned reason) =
    report_as stamp source component model warn reason (truncate line 2048)
event_for stamp source component model line (failed reason) =
    report_as stamp source component model error reason (truncate line 2048)
