-- ===== src/Proxy/Lines.antt =====
-- Server-sent-event lines (provider/src/proxy.rs, `parse_sse_lines` and the inner loop of
-- `handle_streaming_request`).
use d_inference.Prelude.{
  ◌&&◌, Option, none, some, List, [], ◌∷◌, ◌++◌, ◌==◌, if◌then◌else◌, ◌>>=◌, length, is_empty, Text,
  suc, ℕ, zero,
}

-- `buffer.find('\n')`, with the text before the newline and the text behind it.
unfoldable pub split_newline : Text → Option (Text × Text)
split_newline [] = none
split_newline (c ∷ s) =
    if c == b'\n' then some ([], s) else do (line, rest) ← split_newline s; some (c ∷ line, rest)

-- `trim_end_matches('\r')`
unfoldable pub trim_cr : Text → Text
trim_cr [] = []
trim_cr (c ∷ s) = let t = trim_cr s in if c == b'\r' && is_empty t then [] else c ∷ t

-- The `while let` loop. Each round takes a byte at least, so fuel above the length is enough.
unfoldable pub parse_lines : ℕ → Text → List Text → List Text × Text
parse_lines zero remaining lines = (lines, remaining)
parse_lines (suc fuel) remaining lines = elim (split_newline remaining) [
  | none ↦ (lines, remaining)
  | some (raw, rest) ↦
      let line = trim_cr raw in
      parse_lines fuel rest (if is_empty line then lines else lines ++ line ∷ [])
]

unfoldable pub parse_sse_lines : Text → List Text × Text
unfolding parse_lines
parse_sse_lines buffer = parse_lines (suc (length buffer)) buffer []
