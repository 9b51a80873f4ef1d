-- ===== src/Telemetry/Examples.antt =====
-- A queue of flags.
use d_inference.Prelude.{
  ◌≡◌, refl, ◌⊎◌, Bool, true, false, Option, none, some, List, [], ◌∷◌, ◌++◌, map, arith, unwrap_or,
  length, drop, Text, codes, ℕ, ◌<◌,
}
use mathlib.Core.List.{Sublistᴰ}
use d_inference.Telemetry.Queue.{lines, write_lines, drain, push, drain_line, max_bytes}
use d_inference.Telemetry.Flags.{flag_text, flags, flags-IsCodec}
use d_inference.Telemetry.Fifo.{Holds, push-Holds}
use d_inference.Telemetry.Runs.{QueueOp, push_op, drain_op, pushes, run_ops, run_ops-Sublist}
use d_inference.Telemetry.Scraper.{
  provider, Stamp, reported, TelemetryEvent, error, event_for, classify, truncate,
}
use d_inference.Telemetry.Reports.{IsAscii, IsShort, event_for-IsShort}

abbrev queue : List Bool
queue = true ∷ false ∷ true ∷ []

abbrev file : Option Text
file = some (write_lines (map flag_text queue))

queue_held : Holds flags flags-IsCodec queue file
unfolding Holds flags-IsCodec flag_text
queue_held = refl

abbrev ops : List (QueueOp Bool)
ops = push_op true ∷ push_op false ∷ drain_op 1 ∷ push_op false ∷ drain_op 5 ∷ []

ops_run : (run_ops flags ops none).0 ≡ true ∷ false ∷ false ∷ []
unfolding run_ops push drain lines write_lines flag_text drain_line
ops_run = refl

-- A line that is no event is dropped, and what follows it is kept.
malformed :
    drain flags true true 2 (some (codes "true\nx\r\nfalse\ntrue\nlast"))
    ≡ (true ∷ false ∷ [], some (codes "true\nlast\n"))
unfolding drain lines write_lines drain_line
malformed = refl

push-Holds_example :
    (n : ℕ) × Holds flags flags-IsCodec
      (drop n queue ++ false ∷ [])
      (push flags true true false file).0
    × ((push flags true true false file).1 ≡ true)
    × ((n ≡ 0) ⊎ (max_bytes < length (unwrap_or file [])))
push-Holds_example = push-Holds flags flags-IsCodec queue false file queue_held

run_ops-Sublist_example :
    (left : List Bool) × Holds flags flags-IsCodec left (run_ops flags ops none).1
    × Sublistᴰ ((run_ops flags ops none).0 ++ left) (pushes ops)
run_ops-Sublist_example = run_ops-Sublist flags flags-IsCodec ops

-- A cut within a character of two bytes.
cut_character : truncate (b'a' ∷ 195 ∷ 169 ∷ []) 2 ≡ none
cut_character = unfold truncate in refl

abbrev stamp : Stamp
stamp = record { id = codes "1"; timestamp = codes "t"; session_id = codes "s" }

abbrev critical_line : Text
critical_line = codes "x CRITICAL y"

critical_line-IsAscii : IsAscii critical_line
critical_line-IsAscii = unfold IsAscii in omega arith

event_for-IsShort_example :
    (ev : TelemetryEvent) × (event_for stamp provider
        (codes "c")
        none
        critical_line
        (classify critical_line)
      ≡ reported ev)
    × (ev.severity ≡ error)
    × IsShort critical_line ev.message
event_for-IsShort_example =
    event_for-IsShort stamp provider (codes "c") none critical_line critical_line-IsAscii refl
