-- ===== src/Models/Ordered.antt =====
use d_inference.Models.Sort.{insert, sort, text_le}
use mathlib.Core.List.{Permᴰ}
use mathlib.Core.List.Permᴰ
use d_inference.Prelude.{
  refl, sym, Bool, List, ◌≡◌, All, false, true, ◌∷◌, Bool-cases, [], refl, inl, All-map, inr, subst,
  ◌∙◌, Text, ap, arith,
}

-- What sorting does, for an order that is total and transitive.
pub record IsOrder {ℓ} {A : Type ℓ} (le : A → A → Bool) : Type ℓ where
  pub total : (x y : A) → le x y ≡ false → le y x ≡ true
  pub transitive : (x y z : A) → le x y ≡ true → le y z ≡ true → le x z ≡ true

module _ {ℓ} {A : Type ℓ} (le : A → A → Bool) where
  abbrev pub IsAscending : List A → Type ℓ
  IsAscending [] = Unit
  IsAscending (x ∷ xs) = All (λ y. le x y ≡ true) xs × IsAscending xs

  insert_here : (x y : A) (ys : List A) → le x y ≡ true → insert le x (y ∷ ys) ≡ x ∷ y ∷ ys
  unfolding insert
  insert_here x y ys e = rw (e, insert) refl

  insert_later :
      (x y : A) (ys : List A) → le x y ≡ false → insert le x (y ∷ ys) ≡ y ∷ insert le x ys
  unfolding insert
  insert_later x y ys e = rw (e, insert) refl

  insert-Permᴰ : (x : A) (ys : List A) → Permᴰ (insert le x ys) (x ∷ ys)
  insert-Permᴰ x [] = unfold insert in Permᴰ.refl (x ∷ [])
  insert-Permᴰ x (y ∷ ys) = elim (Bool-cases (le x y)) [
    | inl e ↦ rw (insert_here x y ys e) (Permᴰ.refl (x ∷ y ∷ ys))
    | inr e ↦
        rw (insert_later x y ys e)
          (Permᴰ.trans (Permᴰ.cons refl (insert-Permᴰ x ys)) (Permᴰ.swap refl refl))
  ]

  pub sort-Permᴰ : (xs : List A) → Permᴰ (sort le xs) xs
  unfolding sort
  sort-Permᴰ [] = Permᴰ.nil
  sort-Permᴰ (x ∷ xs) = Permᴰ.trans (insert-Permᴰ x (sort le xs)) (Permᴰ.cons refl (sort-Permᴰ xs))

  All-insert {κ} : (P : A → Type κ) (x : A) (ys : List A) → P x → All P ys → All P (insert le x ys)
  All-insert P x [] px h = unfold insert in (px, h)
  All-insert P x (y ∷ ys) px (py, h) = elim (Bool-cases (le x y)) [
    | inl e ↦ rw (insert_here x y ys e) (px, (py, h))
    | inr e ↦ rw (insert_later x y ys e) (py, All-insert P x ys px h)
  ]

  module _ (order : IsOrder le) where
    insert-IsAscending : (x : A) (ys : List A) → IsAscending ys → IsAscending (insert le x ys)
    insert-IsAscending x [] h = unfold insert in (tt, h)
    insert-IsAscending x (y ∷ ys) (hy, h) = elim (Bool-cases (le x y)) [
      | inl e ↦ rw (insert_here x y ys e) (
        (
          e,
          All-map (λ z. le y z ≡ true) (λ z. le x z ≡ true) (λ z. order.transitive x y z e) ys hy,
        ),
        (hy, h),
      )
      | inr e ↦
          rw (insert_later x y ys e)
            (All-insert (λ z. le y z ≡ true) x ys (order.total x y e) hy, insert-IsAscending x ys h)
    ]

    pub sort-IsAscending : (xs : List A) → IsAscending (sort le xs)
    unfolding sort
    sort-IsAscending [] = tt
    sort-IsAscending (x ∷ xs) = insert-IsAscending x (sort le xs) (sort-IsAscending xs)

    module _ (antisymmetric : (x y : A) → le x y ≡ true → le y x ≡ true → x ≡ y) where
      insert_ordered :
          (x y : A) (l : List A)
          → le x y ≡ true
          → le y x ≡ false
          → insert le x (insert le y l) ≡ insert le y (insert le x l)
      insert_ordered x y [] e f =
          unfold insert in (insert_here x y [] e ∙ sym (insert_later y x [] f))
      insert_ordered x y (z ∷ zs) e f = elim (Bool-cases (le y z)) [
        | inl g ↦
            ap (insert le x) (insert_here y z zs g)
            ∙ insert_here x y (z ∷ zs) e
            ∙ sym (
                ap (insert le y) (insert_here x z zs (order.transitive x y z e g))
                ∙ insert_later y x (z ∷ zs) f
                ∙ ap (◌∷◌ x) (insert_here y z zs g))
        | inr g ↦ elim (Bool-cases (le x z)) [
          | inl k ↦
              ap (insert le x) (insert_later y z zs g)
              ∙ insert_here x z (insert le y zs) k
              ∙ sym (
                  ap (insert le y) (insert_here x z zs k)
                  ∙ insert_later y x (z ∷ zs) f
                  ∙ ap (◌∷◌ x) (insert_later y z zs g))
          | inr k ↦
              ap (insert le x) (insert_later y z zs g)
              ∙ insert_later x z (insert le y zs) k
              ∙ ap (◌∷◌ z) (insert_ordered x y zs e f)
              ∙ sym (ap (insert le y) (insert_later x z zs k) ∙ insert_later y z (insert le x zs) g)
        ]
      ]

      insert-insert :
          (x y : A) (l : List A) → insert le x (insert le y l) ≡ insert le y (insert le x l)
      insert-insert x y l = elim (Bool-cases (le x y)) [
        | inl e ↦ elim (Bool-cases (le y x)) [
          | inl f ↦
              subst (λ z. insert le x (insert le z l) ≡ insert le z (insert le x l))
                (antisymmetric x y e f) refl
          | inr f ↦ insert_ordered x y l e f
        ]
        | inr e ↦ sym (insert_ordered y x l (order.total x y e) e)
      ]

      -- The order in which a list is given makes no difference.
      pub sort_perm : {xs ys : List A} → Permᴰ xs ys → sort le xs ≡ sort le ys
      unfolding sort
      sort_perm Permᴰ.nil = refl
      sort_perm (Permᴰ.cons {a = a} {b = b} {l₁ = l} {l₂ = m} e d) =
          subst (λ z. insert le a (sort le l) ≡ insert le z (sort le m)) e
            (ap (insert le a) (sort_perm d))
      sort_perm (Permᴰ.swap {a = a} {b = b} {a' = a'} {b' = b'} {l = l} e f) =
          insert-insert a b (sort le l) ∙ rw e rw f refl
      sort_perm (Permᴰ.trans d f) = sort_perm d ∙ sort_perm f

-- Texts are ordered byte by byte.
text_le_total : (s t : Text) → text_le s t ≡ false → text_le t s ≡ true
unfolding text_le
text_le_total [] t h = cc
text_le_total (a ∷ s) [] h = refl
text_le_total (a ∷ s) (b ∷ t) h = ground (arith, text_le_total s t)

text_le_transitive : (s t u : Text) → text_le s t ≡ true → text_le t u ≡ true → text_le s u ≡ true
unfolding text_le
text_le_transitive [] t u h k = refl
text_le_transitive (a ∷ s) [] u h k = cc
text_le_transitive (a ∷ s) (b ∷ t) [] h k = cc
text_le_transitive (a ∷ s) (b ∷ t) (c ∷ u) h k = ground (arith, text_le_transitive s t u)

pub text_le_antisymmetric : (s t : Text) → text_le s t ≡ true → text_le t s ≡ true → s ≡ t
unfolding text_le
text_le_antisymmetric [] [] h k = refl
text_le_antisymmetric [] (b ∷ t) h k = cc
text_le_antisymmetric (a ∷ s) [] h k = cc
text_le_antisymmetric (a ∷ s) (b ∷ t) h k = ground (arith, text_le_antisymmetric s t)

pub text_le-IsOrder : IsOrder text_le
text_le-IsOrder = record { total = text_le_total; transitive = text_le_transitive }
