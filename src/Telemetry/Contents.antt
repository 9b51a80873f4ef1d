-- ===== src/Telemetry/Contents.antt =====
-- The text of the queue's file, line by line.
use d_inference.Prelude.{
  ◌≡◌, refl, ap, ◌∙◌, inl, inr, Bool, true, false, List, [], ◌∷◌, ◌++◌, arith, leb, leb→le,
  Bool-cases, length, drop, All, Text, ℕ, ◌≤◌, suc, ◌+◌, ◌-◌, zero,
}
use d_inference.Telemetry.Queue.{lines, write_lines, after_line, take_while}

-- A line of printable characters, as JSON texts are.
unfoldable pub IsPrintable : Text → Type 0
IsPrintable = All (λ c. 32 ≤ c)

lines_step : (l s : Text) → IsPrintable l → lines (l ++ b'\n' ∷ s) ≡ l ∷ lines s
unfolding lines IsPrintable
lines_step [] s h = refl
lines_step (c ∷ l) s (printable, h) = rw (lines_step l s h) ground (arith, printable)

pub lines-write_lines : (ls : List Text) → All IsPrintable ls → lines (write_lines ls) ≡ ls
unfolding write_lines
lines-write_lines [] h = unfold lines in refl
lines-write_lines (l ∷ ls) (hl, h) =
    rw (lines_step l (write_lines ls) hl, lines-write_lines ls h) refl

pub take_while_all :
    (p : Text → Bool) (ls : List Text) → All (λ l. p l ≡ true) ls → take_while p ls ≡ ls
take_while_all p [] h = refl
take_while_all p (l ∷ ls) (hl, h) = rw (hl, take_while_all p ls h) refl

drop-append_within : (k : ℕ) (l r : Text) → k ≤ length l → drop k (l ++ r) ≡ drop k l ++ r
drop-append_within zero l r h = refl
drop-append_within (suc k) [] r h = absurd (omega arith)
drop-append_within (suc k) (c ∷ l) r h = drop-append_within k l r (omega arith)

drop-append_past : (i k : ℕ) (l r : Text) → i ≡ length l + k → drop i (l ++ r) ≡ drop k r
drop-append_past i k [] r h = ap (λ (n : ℕ). drop n r) (h ∙ omega arith)
drop-append_past zero k (c ∷ l) r h = absurd (omega (arith, h))
drop-append_past (suc i) k (c ∷ l) r h = drop-append_past i k l r (omega (arith, h))

drop-IsPrintable : (k : ℕ) (l : Text) → IsPrintable l → IsPrintable (drop k l)
unfolding IsPrintable
drop-IsPrintable zero l h = h
drop-IsPrintable (suc k) [] h = tt
drop-IsPrintable (suc k) (c ∷ l) (hc, h) = drop-IsPrintable k l h

after_line-append : (l s : Text) → IsPrintable l → after_line (l ++ b'\n' ∷ s) ≡ s
unfolding after_line IsPrintable
after_line-append [] s h = refl
after_line-append (c ∷ l) s (hc, h) = rw (after_line-append l s h) ground (arith, hc)

beyond :
    (k : ℕ) (l s : Text)
    → leb k (length l) ≡ false
    → drop k (l ++ b'\n' ∷ s) ≡ drop (k - length l - 1) s
beyond k l s h = drop-append_past k (suc (k - length l - 1)) l (b'\n' ∷ s) (ground arith)

-- A cut anywhere, and the line that it falls in skipped.
pub after_line-write_lines :
    (ls : List Text) (k : ℕ)
    → All IsPrintable ls
    → (n : ℕ) × (after_line (drop k (write_lines ls)) ≡ write_lines (drop n ls))
unfolding write_lines
after_line-write_lines [] zero h = (0, unfold after_line write_lines in refl)
after_line-write_lines [] (suc k) h = (0, unfold after_line write_lines in refl)
after_line-write_lines (l ∷ ls) k (hl, h) = elim (Bool-cases (leb k (length l))) [
  | inl y ↦ (
    1,
    ap after_line (drop-append_within k l (b'\n' ∷ write_lines ls) (leb→le _ _ y))
        ∙ after_line-append (drop k l) (write_lines ls) (drop-IsPrintable k l hl),
  )
  | inr past ↦
      let (n, e) = after_line-write_lines ls (k - length l - 1) h in
      (suc n, ap after_line (beyond k l (write_lines ls) past) ∙ e)
]
