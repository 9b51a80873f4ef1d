-- ===== src/Coordinator/StatusMap.antt =====
-- `BTreeMap` with text keys, as a list in the order of its keys, and how lookups see insertions.
use d_inference.Prelude.{
  ◌≡◌, refl, sym, ap, ◌∙◌, subst, inl, inr, Bool, true, false, ◌&&◌, ◌||◌, Option, none, some, List,
  [], ◌∷◌, arith, ltb, ◌==◌, if◌then◌else◌, Bool-cases, Text, text_eq, text_eq→eq,
}

-- The order of texts: by the first difference.
unfoldable pub text_lt : Text → Text → Bool
text_lt s [] = false
text_lt [] (b ∷ t) = true
text_lt (a ∷ s) (b ∷ t) = ltb a b || (a == b && text_lt s t)

text_eq_trans : (k i j : Text) → text_eq i j ≡ true → text_eq k i ≡ text_eq k j
text_eq_trans k i j h = ap (text_eq k) (text_eq→eq i j h)

distinct : (k i j : Text) → text_eq i j ≡ false → text_eq k i ≡ true → text_eq k j ≡ false
distinct k i j differ h = subst (λ (t : Text). text_eq t j ≡ false) (sym (text_eq→eq k i h)) differ

module _ {V : Type 0} where
  unfoldable pub insert : Text → V → List (Text × V) → List (Text × V)
  insert k v [] = (k, v) ∷ []
  insert k v ((j, w) ∷ m) =
      let rest = insert k v m in
      if text_lt k j then (k, v) ∷ (j, w) ∷ m else if text_eq k j then (k, v) ∷ m else (j, w) ∷ rest

  abbrev pub lookup : Text → List (Text × V) → Option V
  lookup k [] = none
  lookup k ((j, w) ∷ m) = let rest = lookup k m in if text_eq k j then some w else rest

  -- `m.insert(k, v)` for the values that are there, from the left.
  unfoldable pub insert_all : List (Text × V) → List (Text × Option V) → List (Text × V)
  insert_all m [] = m
  insert_all m ((k, none) ∷ fields) = insert_all m fields
  insert_all m ((k, some v) ∷ fields) = insert_all (insert k v m) fields

  abbrev pub or_else : Option V → Option V → Option V
  or_else none d = d
  or_else (some v) d = some v

  pub or_else-none : (o : Option V) → or_else o none ≡ o
  or_else-none none = refl
  or_else-none (some v) = refl

  -- The last of the values that the list has under the key.
  abbrev pub last_of : Text → List (Text × Option V) → Option V → Option V
  last_of k [] d = d
  last_of k ((j, o) ∷ fields) d = last_of k fields (if text_eq k j then or_else o d else d)

  lookup-if :
      (b : Bool) (k : Text) (x y : List (Text × V)) (o : Option V)
      → lookup k x ≡ o
      → lookup k y ≡ o
      → lookup k (if b then x else y) ≡ o
  lookup-if true k x y o hx hy = hx
  lookup-if false k x y o hx hy = hy

  swapped :
      (b c : Bool) (x y l : Option V)
      → (b ≡ true → c ≡ false)
      → (if c then y else if b then x else l) ≡ (if b then x else if c then y else l)
  swapped true true x y l h = absurd (ground (arith, h refl))
  swapped true false x y l h = refl
  swapped false c x y l h = refl

  pub lookup-insert :
      (k i : Text) (v : V) (m : List (Text × V))
      → lookup k (insert i v m) ≡ (if text_eq k i then some v else lookup k m)
  unfolding insert
  lookup-insert k i v [] = refl
  lookup-insert k i v ((j, w) ∷ m) = elim (Bool-cases (text_lt i j)) [
    | inl y ↦ rw y refl
    | inr n ↦ elim (Bool-cases (text_eq i j)) [
      | inl same ↦ rw (n, same, text_eq_trans k i j same) ground arith
      | inr differ ↦
          rw (n, differ, lookup-insert k i v m)
            (swapped (text_eq k i) (text_eq k j) (some v) (some w) (lookup k m)
              (distinct k i j differ))
    ]
  ]

  pub lookup-insert_all :
      (k : Text) (fields : List (Text × Option V)) (m : List (Text × V))
      → lookup k (insert_all m fields) ≡ last_of k fields (lookup k m)
  unfolding insert_all
  lookup-insert_all k [] m = refl
  lookup-insert_all k ((j, none) ∷ fields) m =
      lookup-insert_all k fields m ∙ ap (last_of k fields) (unchanged (text_eq k j))
    where
      unchanged : (b : Bool) {d : Option V} → d ≡ (if b then d else d)
      unchanged true = refl
      unchanged false = refl
  lookup-insert_all k ((j, some v) ∷ fields) m =
      lookup-insert_all k fields (insert j v m) ∙ ap (last_of k fields) (lookup-insert k j v m)
