-- ===== src/Launchd/Cut.antt =====
use d_inference.Prelude.{
  Text, Option, drop, is_empty, length, starts_with, ℕ, ◌≡◌, All, false, if◌then◌else◌, some, true,
  ◌++◌, ◌≤◌, none, ◌∷◌, [], arith, Bool-cases, refl, inl, inr, Option-cases, ◌∙◌, ap, subst, sym,
  append_assoc, length-append, ◌==◌, some_inj, ◌<◌,
}

-- `str::find` with the slices before and behind what it finds, as provider/src/main.rs cuts texts.
unfoldable pub cut : Text → Text → Option (Text × Text)
cut p [] = if is_empty p then some ([], []) else none
cut p (c ∷ s) = elim (starts_with (c ∷ s) p) [
  | true ↦ some ([], drop (length p) (c ∷ s))
  | false ↦ elim (cut p s) [ none ↦ none | some (a, b) ↦ some (c ∷ a, b) ]
]

starts_with_longer : (s p r : Text) → length p ≤ length s → starts_with (s ++ r) p ≡ starts_with s p
starts_with_longer s [] r h = refl
starts_with_longer [] (b ∷ p) r h = absurd (omega (arith, h))
starts_with_longer (a ∷ s) (b ∷ p) r h = rw (starts_with_longer s p r (omega (arith, h))) refl

pub starts_with-append : (p r : Text) → starts_with (p ++ r) p ≡ true
starts_with-append [] r = refl
starts_with-append (b ∷ p) r = ground (arith, starts_with-append p r)

drop-append : (p r : Text) → drop (length p) (p ++ r) ≡ r
drop-append [] r = refl
drop-append (b ∷ p) r = drop-append p r

-- What is found stands between the two slices.
starts_with-drop : (p s : Text) → starts_with s p ≡ true → s ≡ p ++ drop (length p) s
starts_with-drop [] s h = refl
starts_with-drop (b ∷ p) [] h = cc
starts_with-drop (b ∷ p) (a ∷ s) h = ground (arith, starts_with-drop p s)

cut_found :
    (p s : Text) (c : ℕ)
    → starts_with (c ∷ s) p ≡ true
    → cut p (c ∷ s) ≡ some ([], drop (length p) (c ∷ s))
unfolding cut
cut_found p s c e = rw (e, cut) refl

pub cut_later :
    (p s : Text) (c : ℕ) {a b : Text}
    → starts_with (c ∷ s) p ≡ false
    → cut p s ≡ some (a, b)
    → cut p (c ∷ s) ≡ some (c ∷ a, b)
unfolding cut
cut_later p s c e f = rw (e, cut) rw f refl

cut_absent :
    (p s : Text) (c : ℕ) → starts_with (c ∷ s) p ≡ false → cut p s ≡ none → cut p (c ∷ s) ≡ none
unfolding cut
cut_absent p s c e f = rw (e, cut) rw f refl

abbrev pieces : Text → Text → Option (Text × Text)
pieces a b = some (a, b)

cut-joins : (d : ℕ) (p s a b : Text) → cut (d ∷ p) s ≡ some (a, b) → s ≡ a ++ ((d ∷ p) ++ b)
cut-joins d p [] a b h = unfold cut in cc
cut-joins d p (c ∷ s) a b h = elim (Bool-cases (starts_with (c ∷ s) (d ∷ p))) [
  | inl e ↦ splice [] _ a b (starts_with-drop (d ∷ p) (c ∷ s) e) (sym (cut_found (d ∷ p) s c e) ∙ h)
  | inr e ↦ elim (Option-cases (cut (d ∷ p) s)) [
    | inl n ↦ cc (cut_absent (d ∷ p) s c e n, h)
    | inr ((a', b'), y) ↦
        splice (c ∷ a') b' a b (ap (λ z. c ∷ z) (cut-joins d p s a' b' y))
          (sym (cut_later (d ∷ p) s c e y) ∙ h)
  ]
]
  where
    splice :
        (a0 b0 a1 b1 : Text)
        → c ∷ s ≡ a0 ++ ((d ∷ p) ++ b0)
        → pieces a0 b0 ≡ pieces a1 b1
        → c ∷ s ≡ a1 ++ ((d ∷ p) ++ b1)
    splice a0 b0 a1 b1 e f = subst (λ z. (c ∷ s) ≡ z.0 ++ ((d ∷ p) ++ z.1)) (some_inj f) e

starts_with_place : (p a b r : Text) → starts_with (a ++ (p ++ r)) p ≡ starts_with (a ++ (p ++ b)) p
starts_with_place p a b r =
    ap (λ z. starts_with z p) (sym (append_assoc a p r))
    ∙ starts_with_longer (a ++ p) p r (omega (arith, length-append a p))
    ∙ sym (starts_with_longer (a ++ p) p b (omega (arith, length-append a p)))
    ∙ ap (λ z. starts_with z p) (append_assoc a p b)

-- The place found depends on the text up to its end only.
cut-before :
    (d : ℕ) (p a b r : Text)
    → cut (d ∷ p) (a ++ ((d ∷ p) ++ b)) ≡ some (a, b)
    → cut (d ∷ p) (a ++ ((d ∷ p) ++ r)) ≡ some (a, r)
cut-before d p [] b r e =
    cut_found (d ∷ p) (p ++ r) d (starts_with-append (d ∷ p) r)
    ∙ ap (λ z. some ([], z)) (drop-append (d ∷ p) r)
cut-before d p (c ∷ a) b r e = elim (Bool-cases (starts_with ((c ∷ a) ++ ((d ∷ p) ++ b)) (d ∷ p))) [
  | inl y ↦ absurd (not_here _ (sym (cut_found (d ∷ p) (a ++ ((d ∷ p) ++ b)) c y) ∙ e))
  | inr n ↦ elim (Option-cases (cut (d ∷ p) (a ++ ((d ∷ p) ++ b)))) [
    | inl m ↦ cc (cut_absent (d ∷ p) (a ++ ((d ∷ p) ++ b)) c n m, e)
    | inr (x, y) ↦
        cut_later (d ∷ p) (a ++ ((d ∷ p) ++ r)) c (starts_with_place (d ∷ p) (c ∷ a) b r ∙ n) (
          cut-before d p a b r
            (y ∙ later x (sym (cut_later (d ∷ p) (a ++ ((d ∷ p) ++ b)) c n y) ∙ e)))
  ]
]
  where
    not_here : (w : Text) → pieces [] w ≡ pieces (c ∷ a) b → ⊥
    not_here w f = cc (ap (λ z. z.0) (some_inj f))

    later : (x : Text × Text) → pieces (c ∷ x.0) (x.1) ≡ pieces (c ∷ a) b → some x ≡ pieces a b
    later x f = ap (λ z. pieces (drop 1 (z.0)) (z.1)) (some_inj f)

-- A text without the first character of what is looked for is passed over.
pub cut-skips :
    (c : ℕ) (p w r : Text)
    → All (λ x. (x == c) ≡ false) w
    → cut (c ∷ p) (w ++ ((c ∷ p) ++ r)) ≡ some (w, r)
cut-skips c p [] r h =
    cut_found (c ∷ p) (p ++ r) c (starts_with-append (c ∷ p) r)
    ∙ ap (λ z. some ([], z)) (drop-append (c ∷ p) r)
cut-skips c p (d ∷ w) r (hd, h) =
    cut_later (c ∷ p) (w ++ ((c ∷ p) ++ r)) d (ground arith) (cut-skips c p w r h)

pub cut-misses : (c : ℕ) (p w : Text) → All (λ x. (x == c) ≡ false) w → cut (c ∷ p) w ≡ none
cut-misses c p [] h = unfold cut in refl
cut-misses c p (d ∷ w) (hd, h) = cut_absent (c ∷ p) w d (ground arith) (cut-misses c p w h)

-- What was found once is found again when the text behind it is another one.
pub cut_again :
    (d : ℕ) (p s a b r : Text)
    → cut (d ∷ p) s ≡ some (a, b)
    → cut (d ∷ p) (a ++ ((d ∷ p) ++ r)) ≡ some (a, r)
cut_again d p s a b r e = cut-before d p a b r (ap (cut (d ∷ p)) (sym (cut-joins d p s a b e)) ∙ e)

-- A text without the first character of what is looked for may stand in front.
pub cut-passes :
    (c : ℕ) (p w s a b : Text)
    → All (λ x. (x == c) ≡ false) w
    → cut (c ∷ p) s ≡ some (a, b)
    → cut (c ∷ p) (w ++ s) ≡ some (w ++ a, b)
cut-passes c p [] s a b h e = e
cut-passes c p (d ∷ w) s a b (hd, h) e =
    cut_later (c ∷ p) (w ++ s) d (rw hd refl) (cut-passes c p w s a b h e)

-- What is behind the place found is shorter than the text.
pub cut_shrinks : (d : ℕ) (p s a b : Text) → cut (d ∷ p) s ≡ some (a, b) → length b < length s
cut_shrinks d p s a b e = omega (
  arith,
  ap length (cut-joins d p s a b e),
  length-append a ((d ∷ p) ++ b),
  length-append (d ∷ p) b,
)
