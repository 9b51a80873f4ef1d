-- ===== src/Prelude/Decimal.antt =====
-- The decimal print of a number, as `format!` writes it, and `str::parse` of a `u32`.
use Prim.Native.Nat.{ℕ, zero, suc, ◌+◌, ◌-◌, ◌*◌, ◌/◌, ◌%◌, ◌<◌, ◌≤◌, ◌^◌}
use mathlib.Core.Path.{◌≡◌, refl, ap, sym, ◌∙◌}
use mathlib.Core.Bool.{true, false, ◌&&◌}
use mathlib.Core.Option.{Option, none, some}
use mathlib.Core.List.{[], ◌∷◌}
use native.Mathlib.Omega.{arith}
use d_inference.Prelude.Tests.{ltb, leb, ltb→lt, ◌==◌, if◌then◌else◌, Bool-cases}
use d_inference.Prelude.Lists.{All, is_empty}
use mathlib.Core.Logic.{inl, inr}
use d_inference.Prelude.Texts.{Text}

-- Each round takes the last digit off, so `suc n` rounds are enough.
digits : ℕ → ℕ → Text → Text
digits zero n out = out
digits (suc f) n out = elim (ltb n 10) [
  | true ↦ (b'0' + n) ∷ out
  | false ↦ digits f (n / 10) ((b'0' + n % 10) ∷ out)
]

unfoldable pub decimal : ℕ → Text
unfolding digits
decimal n = digits (suc n) n []

value : ℕ → Text → ℕ
value n [] = n
value n (c ∷ s) = value (n * 10 + (c - b'0')) s

value-digits : (f n : ℕ) (out : Text) → n < f → value 0 (digits f n out) ≡ value n out
unfolding digits value
value-digits zero n out h = absurd (omega arith)
value-digits (suc f) n out h = ground (arith, value-digits f (n / 10) ((b'0' + n % 10) ∷ out))

abbrev pub IsDigit : ℕ → Type 0
IsDigit c = (b'0' ≤ c) × (c ≤ b'9')

digits-IsDigit : (f n : ℕ) (out : Text) → All IsDigit out → All IsDigit (digits f n out)
unfolding digits
digits-IsDigit zero n out h = h
digits-IsDigit (suc f) n out h = ground (arith, digits-IsDigit f (n / 10) ((b'0' + n % 10) ∷ out))

pub decimal-IsDigit : (n : ℕ) → All IsDigit (decimal n)
unfolding decimal
decimal-IsDigit n = digits-IsDigit (suc n) n [] tt

pub decimal_injective : (m n : ℕ) → decimal m ≡ decimal n → m ≡ n
unfolding decimal value
decimal_injective m n h =
    sym (value-digits (suc m) m [] (omega arith))
    ∙ ap (value 0) h
    ∙ value-digits (suc n) n [] (omega arith)

-- The digits behind a number, read while it stays below 2 ^ 32.
unfoldable pub parse_digits : ℕ → Text → Option ℕ
parse_digits n [] = some n
parse_digits n (c ∷ s) = elim (leb b'0' c && leb c b'9' && ltb (n * 10 + (c - b'0')) (2 ^ 32)) [
  | true ↦ parse_digits (n * 10 + (c - b'0')) s
  | false ↦ none
]

-- A plus may stand in front, and there is a digit at least.
unfoldable pub parse_u32 : Text → Option ℕ
unfolding parse_digits
parse_u32 [] = none
parse_u32 (c ∷ []) = parse_digits 0 (c ∷ [])
parse_u32 (c ∷ d ∷ s) = if c == b'+' then parse_digits 0 (d ∷ s) else parse_digits 0 (c ∷ d ∷ s)

parse_digits_step :
    (n d : ℕ) (s : Text)
    → d < 10
    → n * 10 + d < 2 ^ 32
    → parse_digits n ((b'0' + d) ∷ s) ≡ parse_digits (n * 10 + d) s
unfolding parse_digits
parse_digits_step n d s h b = ground arith

parse_digits-digits :
    (f n : ℕ) (out : Text)
    → n < f
    → n < 2 ^ 32
    → parse_digits 0 (digits f n out) ≡ parse_digits n out
unfolding digits
parse_digits-digits zero n out h b = absurd (omega arith)
parse_digits-digits (suc f) n out h b = elim (Bool-cases (ltb n 10)) [
  | inl e ↦
      ap (parse_digits 0) (rw (e, digits) refl)
      ∙ parse_digits_step 0 n out (ltb→lt n 10 e) (omega (arith, b))
      ∙ ap (λ m. parse_digits m out) (omega arith)
  | inr e ↦
      ap (parse_digits 0) (rw (e, digits) refl)
      ∙ parse_digits-digits f (n / 10) ((b'0' + n % 10) ∷ out) (ground (arith, h))
          (omega (arith, b))
      ∙ parse_digits_step (n / 10) (n % 10) out (omega arith) (omega (arith, b))
      ∙ ap (λ m. parse_digits m out) (omega arith)
]

digits_some : (f n c : ℕ) (out : Text) → is_empty (digits f n (c ∷ out)) ≡ false
unfolding digits
digits_some zero n c out = refl
digits_some (suc f) n c out = ground (arith, digits_some f (n / 10) (b'0' + n % 10) (c ∷ out))

parse_u32-parse_digits :
    (s : Text) → All IsDigit s → is_empty s ≡ false → parse_u32 s ≡ parse_digits 0 s
unfolding parse_u32
parse_u32-parse_digits [] h e = cc
parse_u32-parse_digits (c ∷ []) h e = refl
parse_u32-parse_digits (c ∷ d ∷ s) ((low, high), h) e = ground arith

pub parse_u32-decimal : (n : ℕ) → n < 2 ^ 32 → parse_u32 (decimal n) ≡ some n
unfolding decimal parse_digits digits
parse_u32-decimal n b =
    parse_u32-parse_digits (decimal n) (decimal-IsDigit n)
      (ground (arith, digits_some n (n / 10) (b'0' + n % 10) []))
    ∙ parse_digits-digits (suc n) n [] (omega arith) b
