-- ===== src/Proxy/Relay.antt =====
-- The whole streaming loop against its specification on the lines of the whole response.
use d_inference.Prelude.{
  ◌≡◌, refl, sym, ap, ◌∙◌, subst, inl, inr, Bool, true, false, none, List, [], ◌∷◌, ◌++◌, map,
  append-nil, append_assoc, arith, Bool-cases, length, All, Text, suc,
}
use d_inference.Proxy.Lines.{split_newline, parse_sse_lines}
use d_inference.Proxy.Stream.{
  RequestEnv, StreamState, StreamEvent, bytes, complete, handle_line, process_lines, run_stream,
}
use d_inference.Proxy.Framing.{
  Framed, last, next, parse_sse_lines-Framed, Framed-unique, parse_sse_lines-append,
}
use d_inference.Proxy.Chunking.{
  drained, run_lines, process_lines-RunsLines, complete-drained, RunsLines,
}

abbrev pub concat : List Text → Text
concat [] = []
concat (c ∷ cs) = c ++ concat cs

rest_unsplit : {s r : Text} {ls : List Text} → Framed s ls r → split_newline r ≡ none
rest_unsplit (last n) = n
rest_unsplit (next e f) = rest_unsplit f

module _ (env : RequestEnv) where
  -- A stream that ends with no end marker is completed with what there is.
  unfoldable pub finish : StreamState × Bool → StreamState
  finish (t, true) = t
  finish (t, false) = complete env t

  finish_returned : (p : StreamState × Bool) → p.1 ≡ true → finish p ≡ p.0
  unfolding finish
  finish_returned (t, true) h = refl
  finish_returned (t, false) h = cc

  run_lines_returned :
      (ls ls' : List Text) (s : StreamState)
      → (run_lines env ls s).1 ≡ true
      → run_lines env (ls ++ ls') s ≡ run_lines env ls s
  unfolding run_lines
  run_lines_returned [] ls' s h = cc
  run_lines_returned (l ∷ ls) ls' s h =
      ground (arith, run_lines_returned ls ls' (handle_line env l s).0)

  run_lines_goes_on :
      (ls ls' : List Text) (s : StreamState)
      → (run_lines env ls s).1 ≡ false
      → run_lines env (ls ++ ls') s ≡ run_lines env ls' (run_lines env ls s).0
  unfolding run_lines
  run_lines_goes_on [] ls' s h = refl
  run_lines_goes_on (l ∷ ls) ls' s h =
      ground (arith, run_lines_goes_on ls ls' (handle_line env l s).0)

module _ (env : RequestEnv) (lossy : Text → Text) where
  abbrev pub MeetsLines : List Text → List Text → StreamState → Type 0
  MeetsLines cs ls s =
      (drained (run_stream env lossy (map bytes cs) s).0
        ≡ drained (finish env (run_lines env ls (drained s))))
      × ((run_stream env lossy (map bytes cs) s).1 ≡ none)

  -- The state with a chunk in its buffer, and what its lines make of it.
  filled : Text → StreamState → StreamState
  filled b s = record s { buffer = s.buffer ++ lossy b }

  processed : Text → StreamState → StreamState × Bool
  processed b s = process_lines env (suc (length (filled b s).buffer)) (filled b s)

  stream_returned :
      (b : Text) (events : List StreamEvent) (s : StreamState)
      → (processed b s).1 ≡ true
      → run_stream env lossy (bytes b ∷ events) s ≡ ((processed b s).0, none)
  unfolding run_stream processed filled
  stream_returned b events s h = rw (h, run_stream) refl

  stream_goes_on :
      (b : Text) (events : List StreamEvent) (s : StreamState)
      → (processed b s).1 ≡ false
      → run_stream env lossy (bytes b ∷ events) s ≡ run_stream env lossy events (processed b s).0
  unfolding run_stream processed filled
  stream_goes_on b events s h = rw (h, run_stream) refl

  meets_end :
      (s : StreamState)
      → split_newline s.buffer ≡ none
      → MeetsLines [] (parse_sse_lines s.buffer).0 s
  unfolding run_stream
  meets_end s n =
      rw ((Framed-unique (parse_sse_lines-Framed s.buffer) (last n)).0)
        (unfold run_lines finish in (sym (ap drained (complete-drained env s).0), refl))

  chunk_runs :
      (c : Text) (s : StreamState)
      → lossy c ≡ c
      → RunsLines env
          (parse_sse_lines (s.buffer ++ c)).0
          (parse_sse_lines (s.buffer ++ c)).1
          s
          (processed c s)
  unfolding processed filled
  chunk_runs c s e =
      let a = s.buffer ++ lossy c in
      let runs =
        process_lines-RunsLines env (parse_sse_lines-Framed a) (suc (length a)) (filled c s) refl
          (omega arith) in
      subst
        (λ t.
          RunsLines env (parse_sse_lines (s.buffer ++ t)).0 (parse_sse_lines (s.buffer ++ t)).1 s
            (processed c s))
        e runs

  pub run_stream-MeetsLines :
      (cs : List Text) (s : StreamState)
      → All (λ c. lossy c ≡ c) cs
      → split_newline s.buffer ≡ none
      → MeetsLines cs (parse_sse_lines (s.buffer ++ concat cs)).0 s
  run_stream-MeetsLines [] s h n = rw (append-nil s.buffer) (meets_end s n)
  run_stream-MeetsLines (c ∷ cs) s (hc, h) n =
      subst (λ ls. MeetsLines (c ∷ cs) ls s) (sym lines)
        (elim (Bool-cases t.1) [
          | inl yes' ↦ after_return (sym runs.1 ∙ yes') yes'
          | inr no' ↦
              let same = runs.2 no' in
              after_chunk no' (
                subst (λ (x : Text). MeetsLines cs (parse_sse_lines (x ++ concat cs)).0 t.0) same
                  (run_stream-MeetsLines cs t.0 h (
                    ap split_newline same ∙ rest_unsplit (parse_sse_lines-Framed (s.buffer ++ c)))))
        ])
    where
      t : StreamState × Bool
      t = processed c s

      first : List Text × Text
      first = parse_sse_lines (s.buffer ++ c)

      second : List Text × Text
      second = parse_sse_lines (first.1 ++ concat cs)

      lines : (parse_sse_lines (s.buffer ++ concat (c ∷ cs))).0 ≡ first.0 ++ second.0
      lines =
          ap (λ (x : Text). (parse_sse_lines x).0) (sym (append_assoc s.buffer c (concat cs)))
          ∙ (parse_sse_lines-append (s.buffer ++ c) (concat cs)).0

      runs : RunsLines env first.0 first.1 s t
      runs = chunk_runs c s hc

      after_return :
          (run_lines env first.0 (drained s)).1 ≡ true
          → t.1 ≡ true
          → MeetsLines (c ∷ cs) (first.0 ++ second.0) s
      after_return r y =
          rw
            (
              stream_returned c (map bytes cs) s y,
              run_lines_returned env first.0 second.0 (drained s) r,
              finish_returned env (run_lines env first.0 (drained s)) r,
            )
            (ap drained runs.0, refl)

      after_chunk :
          t.1 ≡ false → MeetsLines cs second.0 t.0 → MeetsLines (c ∷ cs) (first.0 ++ second.0) s
      after_chunk n' ih =
          rw
            (
              stream_goes_on c (map bytes cs) s n',
              run_lines_goes_on env first.0 second.0 (drained s) (sym runs.1 ∙ n'),
              ← runs.0,
            )
            ih
