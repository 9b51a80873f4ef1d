-- ===== src/Update/Versions.antt =====
use d_inference.Prelude.{
  Text, refl, All, ℕ, IsDigit, decimal, ◌<◌, ◌++◌, ◌^◌, ◌≡◌, ◌∷◌, [], decimal-IsDigit,
  parse_u32-decimal, arith, ◌≤◌, ◌⊎◌, true, ◌==◌, false, ◌↔◌, subst,
}
use d_inference.Update.Release.{parse_version, split, version_part, is_newer_version, triple_gt}

-- The order of releases (provider/src/main.rs).

digit_no_dot : (c : ℕ) → b'0' ≤ c → (c == b'.') ≡ false
digit_no_dot c low = ground arith

split-digits :
    (s : Text) (rest : Text) → All IsDigit s → split b'.' (s ++ (b'.' ∷ rest)) ≡ s ∷ split b'.' rest
unfolding split
split-digits [] rest h = refl
split-digits (c ∷ s) rest ((low, high), h) =
    rw (digit_no_dot c low, split) rw (split-digits s rest h) refl

split-last : (s : Text) → All IsDigit s → split b'.' s ≡ s ∷ []
unfolding split
split-last [] h = refl
split-last (c ∷ s) ((low, high), h) = rw (digit_no_dot c low, split) rw (split-last s h) refl

-- The text `major.minor.patch`.
abbrev pub version_text : ℕ → ℕ → ℕ → Text
version_text a b c = decimal a ++ (b'.' ∷ (decimal b ++ (b'.' ∷ decimal c)))

parse_version-version_text :
    (a b c : ℕ)
    → a < 2 ^ 32
    → b < 2 ^ 32
    → c < 2 ^ 32
    → parse_version (version_text a b c) ≡ (a, b, c)
unfolding parse_version version_part
parse_version-version_text a b c ha hb hc =
    rw (split-digits (decimal a) (decimal b ++ (b'.' ∷ decimal c)) (decimal-IsDigit a)) rw
      (split-digits (decimal b) (decimal c) (decimal-IsDigit b)) rw
      (split-last (decimal c) (decimal-IsDigit c)) rw
      (parse_u32-decimal a ha, parse_u32-decimal b hb, parse_u32-decimal c hc) refl

abbrev pub IsLater : ℕ × ℕ × ℕ → ℕ × ℕ × ℕ → Type 0
IsLater (x, y, z) (a, b, c) = (a < x) ⊎ ((a ≡ x) × ((b < y) ⊎ ((b ≡ y) × (c < z))))

triple_gt_iff : (v w : ℕ × ℕ × ℕ) → (triple_gt v w ≡ true) ↔ IsLater v w
unfolding triple_gt
triple_gt_iff (x, y, z) (a, b, c) = ground arith

-- A release major.minor.patch is newer than another exactly if its major number is greater, or that
-- is the same and its minor number is greater, or both are the same and its patch number is greater,
-- if all six numbers are below 2 ^ 32.
pub is_newer_version-version_text :
    (a b c x y z : ℕ)
    → a < 2 ^ 32
    → b < 2 ^ 32
    → c < 2 ^ 32
    → x < 2 ^ 32
    → y < 2 ^ 32
    → z < 2 ^ 32
    → (is_newer_version (version_text a b c) (version_text x y z) ≡ true)
      ↔ IsLater (x, y, z) (a, b, c)
unfolding is_newer_version
is_newer_version-version_text a b c x y z ha hb hc hx hy hz =
    let old = version_text a b c in
    let new = version_text x y z in
    let later = triple_gt_iff (parse_version new) (parse_version old) in
    let later =
      subst (λ v. (is_newer_version old new ≡ true) ↔ IsLater v (parse_version old))
        (parse_version-version_text x y z hx hy hz) later in
    subst (λ v. (is_newer_version old new ≡ true) ↔ IsLater (x, y, z) v)
      (parse_version-version_text a b c ha hb hc) later
