-- ===== src/Models/Sort.antt =====
use d_inference.Prelude.{Bool, Text, List, true, ◌∷◌, [], false, ltb, ◌||◌, ◌==◌, ◌&&◌}

-- The stable `sort` and `sort_by` of the standard library, which provider/src/models.rs and
-- provider/src/security.rs call. `le x y` says that `x` does not compare as greater than `y`.
module _ {ℓ} {A : Type ℓ} (le : A → A → Bool) where
  -- In front of the first element that is not less.
  unfoldable pub insert : A → List A → List A
  insert x [] = x ∷ []
  insert x (y ∷ ys) = elim (le x y) [ true ↦ x ∷ y ∷ ys | false ↦ y ∷ insert x ys ]

  unfoldable pub sort : List A → List A
  unfolding insert
  sort [] = []
  sort (x ∷ xs) = insert x (sort xs)

-- The byte-wise order of texts.
unfoldable pub text_le : Text → Text → Bool
text_le [] t = true
text_le (a ∷ s) [] = false
text_le (a ∷ s) (b ∷ t) = ltb a b || (a == b && text_le s t)
