-- ===== src/Proxy/Framing.antt =====
-- What the line loop makes of a text: a specification without fuel.
use d_inference.Prelude.{
  ◌≡◌, refl, sym, ap, ◌∙◌, subst, ◌≢◌, inl, inr, Option, none, some, List, [], ◌∷◌, ◌++◌,
  append-nil, append_assoc, arith, if◌then◌else◌, Option-cases, length, is_empty, All, Text, suc, ℕ,
  ◌<◌, zero,
}
use d_inference.Proxy.Lines.{split_newline, trim_cr, parse_lines, parse_sse_lines}

-- A line, unless it is empty, in front of the others.
abbrev pub cons_line : Text → List Text → List Text
cons_line line lines = if is_empty line then lines else line ∷ lines

-- `Framed text lines rest`: the text's lines, without their ends and without empty ones, are `lines`,
-- and `rest` is what stands behind the last newline.
pub data Framed : Text → List Text → Text → Type 0 where
  last : {s : Text} → split_newline s ≡ none → Framed s [] s
  next :
      {s raw rest r : Text} {ls : List Text}
      → split_newline s ≡ some (raw, rest)
      → Framed rest ls r
      → Framed s (cons_line (trim_cr raw) ls) r

pub split_newline_shrinks :
    (s raw rest : Text) → split_newline s ≡ some (raw, rest) → length rest < length s
unfolding split_newline
split_newline_shrinks [] raw rest h = cc
split_newline_shrinks (c ∷ s) raw rest h = elim (Option-cases (split_newline s)) [
  | inl n ↦ ground arith
  | inr (p, e) ↦ ground (arith, split_newline_shrinks s p.0 p.1 e)
]

split_newline-append :
    (s b raw rest : Text)
    → split_newline s ≡ some (raw, rest)
    → split_newline (s ++ b) ≡ some (raw, rest ++ b)
unfolding split_newline
split_newline-append [] b raw rest h = cc
split_newline-append (c ∷ s) b raw rest h = elim (Option-cases (split_newline s)) [
  | inl n ↦ ground arith
  | inr (p, e) ↦ ground (arith, split_newline-append s b p.0 p.1 e)
]

push_line :
    (acc : List Text) (line : Text) (ls : List Text)
    → (if is_empty line then acc else acc ++ line ∷ []) ++ ls ≡ acc ++ cons_line line ls
push_line acc [] ls = refl
push_line acc (c ∷ line) ls = append_assoc acc ((c ∷ line) ∷ []) ls

parse_lines-Framed :
    (fuel : ℕ) (s : Text) (acc : List Text)
    → length s < fuel
    → (ls : List Text) × (r : Text) × Framed s ls r × (parse_lines fuel s acc ≡ (acc ++ ls, r))
unfolding parse_lines
parse_lines-Framed zero s acc h = absurd (omega arith)
parse_lines-Framed (suc fuel) s acc h = elim (Option-cases (split_newline s)) [
  | inl n ↦
      ([], s, last n, rw (n, parse_lines) (ap (λ (l : List Text). (l, s)) (sym (append-nil acc))))
  | inr (p, e) ↦
      let acc' = if is_empty (trim_cr p.0) then acc else acc ++ trim_cr p.0 ∷ [] in
      let (ls, r, f, q) =
        parse_lines-Framed fuel p.1 acc' (omega (arith, split_newline_shrinks s p.0 p.1 e)) in
      (
        cons_line (trim_cr p.0) ls,
        r,
        next e f,
        rw (e, parse_lines) (q ∙ ap (λ (l : List Text). (l, r)) (push_line acc (trim_cr p.0) ls)),
      )
]

-- The loop ends, and its result is the framing of the whole text.
pub parse_sse_lines-Framed : (s : Text) → Framed s (parse_sse_lines s).0 (parse_sse_lines s).1
unfolding parse_sse_lines
parse_sse_lines-Framed s =
    let (ls, r, f, q) = parse_lines-Framed (suc (length s)) s [] (omega arith) in rw q f

some_pair_injective :
    {a b x y : Text}
    → ◌≡◌ {A = Option (Text × Text)} (some (a, x)) (some (b, y))
    → (a ≡ b) × (x ≡ y)
some_pair_injective e = ground arith

pub Framed-unique :
    {s r r' : Text} {ls ls' : List Text} → Framed s ls r → Framed s ls' r' → (ls ≡ ls') × (r ≡ r')
Framed-unique (last n) (last m) = (refl, refl)
Framed-unique (last n) (next e f) = absurd (cc (n, e))
Framed-unique (next e f) (last n) = absurd (cc (n, e))
Framed-unique (next {raw = a} {ls = ls₁} e f) (next {raw = b} {r = r₂} {ls = ls₂} e' g) =
    let (same_raw, same_rest) = some_pair_injective (sym e ∙ e') in
    let (same_lines, same_r) = Framed-unique f (subst (λ t. Framed t ls₂ r₂) (sym same_rest) g) in
    (
      ap (λ (t : Text). cons_line (trim_cr t) ls₁) same_raw ∙ ap (cons_line (trim_cr b)) same_lines,
      same_r,
    )

cons_line-append :
    (line : Text) (ls ls' : List Text) → cons_line line (ls ++ ls') ≡ cons_line line ls ++ ls'
cons_line-append [] ls ls' = refl
cons_line-append (c ∷ line) ls ls' = refl

pub Framed-append :
    (b : Text) {a r r' : Text} {ls ls' : List Text}
    → Framed a ls r
    → Framed (r ++ b) ls' r'
    → Framed (a ++ b) (ls ++ ls') r'
Framed-append b (last n) g = g
Framed-append b {r' = r'} {ls' = ls'} (next {s = s} {raw = raw} {rest = rest} {ls = ls} e f) g =
    subst (λ l. Framed (s ++ b) l r') (cons_line-append (trim_cr raw) ls ls')
      (next (split_newline-append s b raw rest e) (Framed-append b f g))

-- Feeding a text in two pieces, with what is left over from the first in front of the second, gives the
-- lines and the rest of the whole text.
pub parse_sse_lines-append :
    (a b : Text)
    → let first = parse_sse_lines a in
      let second = parse_sse_lines (first.1 ++ b) in
      ((parse_sse_lines (a ++ b)).0 ≡ first.0 ++ second.0)
      × ((parse_sse_lines (a ++ b)).1 ≡ second.1)
parse_sse_lines-append a b =
    Framed-unique (parse_sse_lines-Framed (a ++ b))
      (Framed-append b (parse_sse_lines-Framed a) (parse_sse_lines-Framed _))

-- A line as a sender may write it: no newline, and no carriage return before the end of the line.
pub record IsLine (line : Text) : Type 0 where
  pub nonempty : line ≢ []
  pub no_newline : All (λ c. c ≢ b'\n') line
  pub trimmed : trim_cr line ≡ line

-- The lines, each with its newline, and an unfinished line behind them.
abbrev pub unlines : List Text → Text → Text
unlines [] rest = rest
unlines (l ∷ ls) rest = l ++ (b'\n' ∷ unlines ls rest)

split_newline_line :
    (l rest : Text) → All (λ c. c ≢ b'\n') l → split_newline (l ++ (b'\n' ∷ rest)) ≡ some (l, rest)
unfolding split_newline
split_newline_line [] rest h = refl
split_newline_line (c ∷ l) rest (hc, h) = ground (arith, split_newline_line l rest h)

split_newline-none : (l : Text) → All (λ c. c ≢ b'\n') l → split_newline l ≡ none
unfolding split_newline
split_newline-none [] h = refl
split_newline-none (c ∷ l) (hc, h) = ground (arith, split_newline-none l h)

cons_line_full : (l : Text) (ls : List Text) → l ≢ [] → cons_line l ls ≡ l ∷ ls
cons_line_full [] ls h = absurd (h refl)
cons_line_full (c ∷ l) ls h = refl

unlines-Framed :
    (ls : List Text) (rest : Text)
    → All IsLine ls
    → All (λ c. c ≢ b'\n') rest
    → Framed (unlines ls rest) ls rest
unlines-Framed [] rest h hr = last (split_newline-none rest hr)
unlines-Framed (l ∷ ls) rest (hl, h) hr =
    subst (λ x. Framed (unlines (l ∷ ls) rest) x rest)
      (ap (λ (t : Text). cons_line t ls) hl.trimmed ∙ cons_line_full l ls hl.nonempty)
      (next (split_newline_line l (unlines ls rest) hl.no_newline) (unlines-Framed ls rest h hr))

-- Lines that are written one by one, each with a newline, are read back as they were, and so is an
-- unfinished line behind them: if no line is empty, holds a newline or ends in a carriage return, and
-- the unfinished line holds no newline.
pub parse_sse_lines-unlines :
    (ls : List Text) (rest : Text)
    → All IsLine ls
    → All (λ c. c ≢ b'\n') rest
    → ((parse_sse_lines (unlines ls rest)).0 ≡ ls) × ((parse_sse_lines (unlines ls rest)).1 ≡ rest)
parse_sse_lines-unlines ls rest h hr =
    Framed-unique (parse_sse_lines-Framed (unlines ls rest)) (unlines-Framed ls rest h hr)
