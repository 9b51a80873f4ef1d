-- ===== src/Proxy/Chunking.antt =====
-- The streaming loop and the cuts between chunks.
use d_inference.Prelude.{
  ◌≡◌, refl, sym, ap, ◌∙◌, inl, inr, Bool, true, false, none, some, List, [], ◌∷◌, arith,
  Bool-cases, Option-cases, length, drop, Text, ℕ, ◌<◌, suc, zero,
}
use d_inference.Proxy.Lines.{split_newline, trim_cr}
use d_inference.Proxy.Stream.{
  RequestEnv, StreamState, complete, absorb, absorb_json, handle_line, process_lines,
}
use d_inference.Proxy.Framing.{cons_line, Framed, last, next, split_newline_shrinks}

-- A state without its buffer.
abbrev pub drained : StreamState → StreamState
drained s = record s { buffer = [] }

module _ (env : RequestEnv) where
  -- The lines of a whole text, one after the other, until one of them returns.
  unfoldable pub run_lines : List Text → StreamState → StreamState × Bool
  run_lines [] s = (s, false)
  run_lines (line ∷ lines) s =
      let (t, returned) = handle_line env line s in
      elim returned [ true ↦ (t, true) | false ↦ run_lines lines t ]

  pub complete-drained :
      (s : StreamState)
      → (complete env (drained s) ≡ drained (complete env s)) × ((complete env s).buffer ≡ s.buffer)
  unfolding complete
  complete-drained s = (refl, refl)

  absorb-drained :
      (text : Text) (s : StreamState)
      → (absorb env.json text (drained s) ≡ drained (absorb env.json text s))
        × ((absorb env.json text s).buffer ≡ s.buffer)
  unfolding absorb absorb_json
  absorb-drained text s = elim (Option-cases (env.json.from_str text)) [
    | inl n ↦ rw (n, absorb) (refl, refl)
    | inr (v, e) ↦ rw (e, absorb) (refl, refl)
  ]

  handle_line-drained :
      (line : Text) (s : StreamState)
      → ((handle_line env line (drained s)).0 ≡ drained (handle_line env line s).0)
        × ((handle_line env line (drained s)).1 ≡ (handle_line env line s).1)
        × ((handle_line env line s).0.buffer ≡ s.buffer)
  unfolding handle_line
  handle_line-drained line s = ground (arith, complete-drained s, absorb-drained (drop 6 line) s)

  run_lines-cons_line :
      (line : Text) (ls : List Text) (s : StreamState)
      → run_lines (cons_line line ls) s ≡ (
          let (t, returned) = handle_line env line s in
          elim returned [ true ↦ (t, true) | false ↦ run_lines ls t ])
  unfolding run_lines handle_line
  run_lines-cons_line [] ls s = refl
  run_lines-cons_line (c ∷ line) ls s = refl

  run_returned :
      (line : Text) (ls : List Text) (s : StreamState)
      → (handle_line env line s).1 ≡ true
      → run_lines (cons_line line ls) s ≡ ((handle_line env line s).0, true)
  run_returned line ls s h = run_lines-cons_line line ls s ∙ rw h refl

  run_goes_on :
      (line : Text) (ls : List Text) (s : StreamState)
      → (handle_line env line s).1 ≡ false
      → run_lines (cons_line line ls) s ≡ run_lines ls (handle_line env line s).0
  run_goes_on line ls s h = run_lines-cons_line line ls s ∙ rw h refl

  process_last :
      (fuel : ℕ) (s : StreamState)
      → split_newline s.buffer ≡ none
      → process_lines env (suc fuel) s ≡ (s, false)
  unfolding process_lines
  process_last fuel s h = rw (h, process_lines)

  process_returned :
      (fuel : ℕ) (s : StreamState) (raw rest : Text)
      → split_newline s.buffer ≡ some (raw, rest)
      → (handle_line env (trim_cr raw) (record s { buffer = rest })).1 ≡ true
      → process_lines env (suc fuel) s
        ≡ ((handle_line env (trim_cr raw) (record s { buffer = rest })).0, true)
  unfolding process_lines
  process_returned fuel s raw rest h r = rw (h, process_lines) (rw r refl)

  process_goes_on :
      (fuel : ℕ) (s : StreamState) (raw rest : Text)
      → split_newline s.buffer ≡ some (raw, rest)
      → (handle_line env (trim_cr raw) (record s { buffer = rest })).1 ≡ false
      → process_lines env (suc fuel) s
        ≡ process_lines env fuel (handle_line env (trim_cr raw) (record s { buffer = rest })).0
  unfolding process_lines
  process_goes_on fuel s raw rest h r = rw (h, process_lines) (rw r refl)

  -- The loop over the buffer has run the buffer's lines; what is left of the buffer is its unfinished
  -- line, unless a line has returned.
  abbrev pub RunsLines : List Text → Text → StreamState → StreamState × Bool → Type 0
  RunsLines ls r s out =
      (drained out.0 ≡ (run_lines ls (drained s)).0)
      × (out.1 ≡ (run_lines ls (drained s)).1)
      × (out.1 ≡ false → out.0.buffer ≡ r)

  pub process_lines-RunsLines :
      {text r : Text} {ls : List Text}
      → Framed text ls r
      → (fuel : ℕ) (s : StreamState) → s.buffer ≡ text
      → length text < fuel
      → RunsLines ls r s (process_lines env fuel s)
  process_lines-RunsLines (last n) zero s e h = absurd (omega arith)
  process_lines-RunsLines (next q f) zero s e h = absurd (omega arith)
  process_lines-RunsLines (last n) (suc fuel) s e h =
      rw (process_last fuel s (ap split_newline e ∙ n)) (unfold run_lines in (refl, refl, λ _. e))
  process_lines-RunsLines (next {s = text} {raw = raw} {rest = rest} {ls = ls} q f) (suc fuel) s e
        h =
      elim (Bool-cases t.1) [
        | inl yes' ↦
            rw
              (
                process_returned fuel s raw rest split yes',
                run_returned (trim_cr raw) ls (drained s) (same.1 ∙ yes'),
              )
              (sym same.0, refl, λ c. cc)
        | inr no' ↦
            let ih =
              process_lines-RunsLines f fuel t.0 same.2
                (omega (arith, split_newline_shrinks text raw rest q)) in
            rw
              (
                process_goes_on fuel s raw rest split no',
                run_goes_on (trim_cr raw) ls (drained s) (same.1 ∙ no'),
                same.0,
              )
              ih
      ]
    where
      split : split_newline s.buffer ≡ some (raw, rest)
      split = ap split_newline e ∙ q

      t : StreamState × Bool
      t = handle_line env (trim_cr raw) (record s { buffer = rest })

      same :
          ((handle_line env (trim_cr raw) (drained s)).0 ≡ drained t.0)
          × ((handle_line env (trim_cr raw) (drained s)).1 ≡ t.1)
          × (t.0.buffer ≡ rest)
      same = handle_line-drained (trim_cr raw) (record s { buffer = rest })
