-- ===== src/Telemetry/Queue.antt =====
-- `DiskQueue`: events as lines of JSON in one file.
use d_inference.Prelude.{
  Bool, true, false, not, ◌&&◌, Option, none, some, List, [], ◌∷◌, ◌++◌, ltb, leb, ◌==◌,
  if◌then◌else◌, unwrap_or, length, drop, Text, ℕ, ◌/◌, ◌*◌,
}

-- What is called of serde_json for events, and of UTF-8 decoding.
pub record EventJson (Event : Type 0) : Type 0 where
  pub to_string : Event → Option Text
  pub from_str : Text → Option Event
  pub is_utf8 : Text → Bool

abbrev pub max_bytes : ℕ
max_bytes = 5 * 1024 * 1024

abbrev pub push_front : ℕ → List Text → List Text
push_front c [] = (c ∷ []) ∷ []
push_front c (line ∷ lines) = (c ∷ line) ∷ lines

abbrev pub before_newline : Text → Bool
before_newline [] = false
before_newline (c ∷ s) = c == b'\n'

-- `BufRead::lines`: a line ends with a newline, before which one carriage return is dropped.
unfoldable pub lines : Text → List Text
lines [] = []
lines (c ∷ s) =
    let rest = lines s in
    if c == b'\n'
    then [] ∷ rest
    else if c == b'\r' && before_newline s
    then rest
    else push_front c rest

-- `writeln!`, line by line.
unfoldable pub write_lines : List Text → Text
write_lines [] = []
write_lines (line ∷ rest) = line ++ b'\n' ∷ write_lines rest

-- `read_line`, whose line is discarded.
unfoldable pub after_line : Text → Text
after_line [] = []
after_line (c ∷ s) = let rest = after_line s in if c == b'\n' then s else rest

-- `map_while(Result::ok)`: reading stops at a line that is not UTF-8.
abbrev pub take_while : (Text → Bool) → List Text → List Text
take_while p [] = []
take_while p (line ∷ rest) = if p line then line ∷ take_while p rest else []

module _ {Event : Type 0} (j : EventJson Event) where
  abbrev pub push_event : Option Event → List Event → List Event
  push_event none drained = drained
  push_event (some ev) drained = drained ++ ev ∷ []

  -- One round of the loop over the lines; a malformed line is dropped.
  unfoldable pub drain_line : ℕ → Text → List Event → List Text → List Event × List Text
  drain_line limit line drained remaining =
      if ltb (length drained) limit
      then (push_event (j.from_str line) drained, remaining)
      else (drained, remaining ++ line ∷ [])

  unfoldable pub drain_lines : ℕ → List Text → List Event → List Text → List Event × List Text
  drain_lines limit [] drained remaining = (drained, remaining)
  drain_lines limit (line ∷ rest) drained remaining =
      let (drained', remaining') = drain_line limit line drained remaining in
      drain_lines limit rest drained' remaining'

  -- The events and the file. `none` is a file that does not exist; `opens` and `rewrites` tell whether
  -- it can be opened, and whether the temporary file is written and renamed.
  unfoldable pub drain : (opens rewrites : Bool) → ℕ → Option Text → List Event × Option Text
  unfolding drain_lines
  drain opens rewrites limit none = ([], none)
  drain opens rewrites limit (some content) =
      let (drained, remaining) = drain_lines limit (take_while j.is_utf8 (lines content)) [] [] in
      if not opens
      then ([], some content)
      else (drained, some (if rewrites then write_lines remaining else content))

  -- The file, and whether there was no error; one leaves the file as it was.
  unfoldable pub rotate_if_needed : Bool → Option Text → Option Text × Bool
  rotate_if_needed rewrites none = (none, true)
  rotate_if_needed rewrites (some content) =
      if leb (length content) max_bytes
      then (some content, true)
      else if rewrites
      then (
        some (
            write_lines
              (take_while j.is_utf8 (lines (after_line (drop (length content / 2) content))))),
        true,
      )
      else (some content, false)

  -- The end of `push`, after the rotation. `appends` tells whether the line is appended.
  abbrev pub append_line : Bool → Text → Option Text × Bool → Option Text × Bool
  append_line appends line (rotated, rotation_ok) =
      if not rotation_ok
      then (rotated, false)
      else if appends
      then (some (unwrap_or rotated [] ++ (line ++ b'\n' ∷ [])), true)
      else (rotated, false)

  -- An event that cannot be encoded is dropped.
  abbrev pub push_encoded :
      (rewrites appends : Bool) → Option Text → Option Text → Option Text × Bool
  push_encoded rewrites appends none file = (file, true)
  push_encoded rewrites appends (some line) file =
      append_line appends line (rotate_if_needed rewrites file)

  unfoldable pub push : (rewrites appends : Bool) → Event → Option Text → Option Text × Bool
  unfolding rotate_if_needed
  push rewrites appends event file = push_encoded rewrites appends (j.to_string event) file
