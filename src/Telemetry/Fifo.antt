-- ===== src/Telemetry/Fifo.antt =====
-- The disk queue against a list of events.
use d_inference.Prelude.{
  ◌≡◌, refl, sym, ap, ◌∙◌, subst, ◌⊎◌, inl, inr, true, Option, none, some, List, [], ◌∷◌, ◌++◌, map,
  append-nil, append_assoc, arith, leb, lt→ltb, Bool-cases, unwrap_or, length, take, drop, All,
  length-append, Text, ℕ, suc, ◌+◌, ◌<◌, zero, ◌/◌,
}
use d_inference.Telemetry.Queue.{
  EventJson, lines, write_lines, after_line, take_while, max_bytes, drain_line, drain_lines, drain,
  rotate_if_needed, push,
}
use d_inference.Telemetry.Contents.{
  IsPrintable, lines-write_lines, take_while_all, after_line-write_lines,
}

-- An encoding of events as printable texts that are read back as they were.
pub record IsCodec {Event : Type 0} (j : EventJson Event) : Type 0 where
  pub text : Event → Text
  pub written : (e : Event) → j.to_string e ≡ some (text e)
  pub read : (e : Event) → j.from_str (text e) ≡ some e
  pub printable : (e : Event) → IsPrintable (text e)
  pub utf8 : (e : Event) → j.is_utf8 (text e) ≡ true

write_lines-append :
    (ls : List Text) (l : Text) → write_lines (ls ++ l ∷ []) ≡ write_lines ls ++ (l ++ b'\n' ∷ [])
unfolding write_lines
write_lines-append [] l = refl
write_lines-append (k ∷ ls) l =
    ap (λ (t : Text). k ++ b'\n' ∷ t) (write_lines-append ls l)
    ∙ sym (append_assoc k (b'\n' ∷ write_lines ls) (l ++ b'\n' ∷ []))

map-append_one :
    {A B : Type 0} (f : A → B) (xs : List A) (x : A) → map f (xs ++ x ∷ []) ≡ map f xs ++ f x ∷ []
map-append_one f [] x = refl
map-append_one f (y ∷ xs) x = ap (λ (l : List _). f y ∷ l) (map-append_one f xs x)

map-drop : {A B : Type 0} (f : A → B) (n : ℕ) (xs : List A) → drop n (map f xs) ≡ map f (drop n xs)
map-drop f zero xs = refl
map-drop f (suc n) [] = refl
map-drop f (suc n) (x ∷ xs) = map-drop f n xs

module _ {Event : Type 0} (j : EventJson Event) (codec : IsCodec j) where
  -- The file holds exactly these events.
  unfoldable pub Holds : List Event → Option Text → Type 0
  Holds events file = unwrap_or file [] ≡ write_lines (map codec.text events)

  texts-IsPrintable : (es : List Event) → All IsPrintable (map codec.text es)
  texts-IsPrintable [] = tt
  texts-IsPrintable (e ∷ es) = (codec.printable e, texts-IsPrintable es)

  texts_utf8 : (es : List Event) → All (λ l. j.is_utf8 l ≡ true) (map codec.text es)
  texts_utf8 [] = tt
  texts_utf8 (e ∷ es) = (codec.utf8 e, texts_utf8 es)

  -- The lines of a file that holds events.
  read_back :
      (es : List Event)
      → take_while j.is_utf8 (lines (write_lines (map codec.text es))) ≡ map codec.text es
  read_back es =
      ap (take_while j.is_utf8) (lines-write_lines (map codec.text es) (texts-IsPrintable es))
      ∙ take_while_all j.is_utf8 (map codec.text es) (texts_utf8 es)

  drain_line_full :
      (limit : ℕ) (l : Text) (d : List Event) (r : List Text)
      → length d ≡ limit
      → drain_line j limit l d r ≡ (d, r ++ l ∷ [])
  unfolding drain_line
  drain_line_full limit l d r h = ground arith

  drain_line_room :
      (limit : ℕ) (e : Event) (d : List Event) (r : List Text)
      → length d < limit
      → drain_line j limit (codec.text e) d r ≡ (d ++ e ∷ [], r)
  unfolding drain_line
  drain_line_room limit e d r h = rw (codec.read e, lt→ltb _ _ h) refl

  drain_lines_step :
      (limit : ℕ) (l : Text) (ls : List Text) (d d' : List Event) (r r' : List Text)
      → drain_line j limit l d r ≡ (d', r')
      → drain_lines j limit (l ∷ ls) d r ≡ drain_lines j limit ls d' r'
  unfolding drain_lines
  drain_lines_step limit l ls d d' r r' h = rw h refl

  drain_lines_exact :
      (k : ℕ) (es : List Event) (limit : ℕ) (d : List Event) (r : List Text)
      → length d + k ≡ limit
      → drain_lines j limit (map codec.text es) d r
        ≡ (d ++ take k es, r ++ map codec.text (drop k es))
  drain_lines_exact zero [] limit d r h = unfold drain_lines in rw (append-nil d, append-nil r) refl
  drain_lines_exact (suc k) [] limit d r h =
      unfold drain_lines in rw (append-nil d, append-nil r) refl
  drain_lines_exact zero (e ∷ es) limit d r h =
      drain_lines_step limit (codec.text e) (map codec.text es) d d r (r ++ codec.text e ∷ [])
        (drain_line_full limit (codec.text e) d r (omega (arith, h)))
      ∙ drain_lines_exact zero es limit d (r ++ codec.text e ∷ []) h
      ∙ ap (λ (t : List Text). (d ++ [], t))
          (append_assoc r (codec.text e ∷ []) (map codec.text es))
  drain_lines_exact (suc k) (e ∷ es) limit d r h =
      drain_lines_step limit (codec.text e) (map codec.text es) d (d ++ e ∷ []) r r
        (drain_line_room limit e d r (omega (arith, h)))
      ∙ drain_lines_exact k es limit (d ++ e ∷ []) r (omega (arith, h, length-append d (e ∷ [])))
      ∙ ap (λ (t : List Event). (t, r ++ map codec.text (drop k es)))
          (append_assoc d (e ∷ []) (take k es))

  nothing_held : (es : List Event) → [] ≡ write_lines (map codec.text es) → es ≡ []
  unfolding write_lines
  nothing_held [] h = refl
  nothing_held (e ∷ es) h = absurd (
      omega (
        arith,
        ap (λ (t : Text). length t) h,
        length-append (codec.text e) (b'\n' ∷ write_lines (map codec.text es)),
      ))

  -- With a file system that works, and an encoding of events as printable texts that are read back as
  -- they were, `drain` takes the oldest events, `limit` at most, each once, and the file holds the others
  -- in their order.
  pub drain-Holds :
      (limit : ℕ) (events : List Event) (file : Option Text)
      → Holds events file
      → ((drain j true true limit file).0 ≡ take limit events)
        × Holds (drop limit events) (drain j true true limit file).1
  unfolding drain Holds
  drain-Holds limit events none h =
      let empty = nothing_held events h in
      subst
        (λ (es : List Event).
          ([] ≡ take limit es) × ([] ≡ write_lines (map codec.text (drop limit es))))
        (sym empty) (nothing limit)
    where
      none_yet : List Event
      none_yet = []

      nothing :
          (n : ℕ) → (none_yet ≡ take n none_yet) × ([] ≡ write_lines (map codec.text (drop n [])))
      nothing zero = (refl, unfold write_lines in refl)
      nothing (suc n) = (refl, unfold write_lines in refl)
  drain-Holds limit events (some content) h =
      let drained =
        ap (λ (t : Text). drain_lines j limit (take_while j.is_utf8 (lines t)) [] []) h
        ∙ ap (λ (ls : List Text). drain_lines j limit ls [] []) (read_back events)
        ∙ drain_lines_exact limit events limit [] [] (omega arith) in
      (
        ap (λ (p : List Event × List Text). p.0) drained,
        ap (λ (p : List Event × List Text). write_lines p.1) drained,
      )

  -- What a rotation leaves of a file that holds events.
  rotated :
      (es : List Event) (k : ℕ)
      → (n : ℕ) × (write_lines
            (take_while j.is_utf8 (lines (after_line (drop k (write_lines (map codec.text es))))))
          ≡ write_lines (map codec.text (drop n es)))
  rotated es k =
      let (n, e) = after_line-write_lines (map codec.text es) k (texts-IsPrintable es) in
      (
        n,
        ap (λ (t : Text). write_lines (take_while j.is_utf8 (lines t)))
              (e ∙ ap write_lines (map-drop codec.text n es))
            ∙ ap write_lines (read_back (drop n es)),
      )

  rotate_if_needed-Holds :
      (events : List Event) (file : Option Text)
      → Holds events file
      → (n : ℕ) × Holds (drop n events) (rotate_if_needed j true file).0
        × ((rotate_if_needed j true file).1 ≡ true)
        × ((n ≡ 0) ⊎ (max_bytes < length (unwrap_or file [])))
  unfolding rotate_if_needed Holds
  rotate_if_needed-Holds events none h = (0, h, refl, inl refl)
  rotate_if_needed-Holds events (some content) h =
      elim (Bool-cases (leb (length content) max_bytes)) [
        | inl y ↦ (0, rw y h, rw y refl, inl refl)
        | inr large ↦
            let (n, e) = rotated events (length content / 2) in
            let cut =
              ap
                (λ (t : Text).
                  write_lines
                    (take_while j.is_utf8 (lines (after_line (drop (length content / 2) t)))))
                h in
            (n, rw large (cut ∙ e), rw large refl, inr (ground arith))
      ]

  -- With a file system that works, and an encoding of events as printable texts that are read back as
  -- they were, `push` adds the event behind the others. It loses some of the oldest only if the file is
  -- larger than `MAX_BYTES`.
  pub push-Holds :
      (events : List Event) (event : Event) (file : Option Text)
      → Holds events file
      → (n : ℕ) × Holds (drop n events ++ event ∷ []) (push j true true event file).0
        × ((push j true true event file).1 ≡ true)
        × ((n ≡ 0) ⊎ (max_bytes < length (unwrap_or file [])))
  unfolding push Holds
  push-Holds events event file h =
      let (n, held, ok, size) = rotate_if_needed-Holds events file h in
      (
        n,
        rw (codec.written event, rotate_if_needed, ok)
            (ap (λ (t : Text). t ++ (codec.text event ++ b'\n' ∷ [])) held
              ∙ sym (
                  ap write_lines (map-append_one codec.text (drop n events) event)
                  ∙ write_lines-append (map codec.text (drop n events)) (codec.text event))),
        rw (codec.written event, rotate_if_needed, ok) refl,
        size,
      )
