-- ===== src/Schedule/Names.antt =====
-- The names of the days in a configuration, and what `parse_day` and `parse_days` make of them.
use d_inference.Prelude.{
  ◌≡◌, refl, subst, sym, ◌⊎◌, inl, inr, Bool, true, false, ◌||◌, Option, none, some, List, [], ◌∷◌,
  arith, if◌then◌else◌, Memᴰ, Text, codes, text_eq, text_eq→eq, to_ascii_lowercase,
}
use d_inference.Schedule.Week.{Weekday, mon, tue, wed, thu, fri, sat, sun}
use d_inference.Schedule.Config.{parse_day, parse_days, is_word, cons_some}

abbrev pub short_name : Weekday → Text
short_name mon = codes "mon"
short_name tue = codes "tue"
short_name wed = codes "wed"
short_name thu = codes "thu"
short_name fri = codes "fri"
short_name sat = codes "sat"
short_name sun = codes "sun"

abbrev pub long_name : Weekday → Text
long_name mon = codes "monday"
long_name tue = codes "tuesday"
long_name wed = codes "wednesday"
long_name thu = codes "thursday"
long_name fri = codes "friday"
long_name sat = codes "saturday"
long_name sun = codes "sunday"

-- The text is the short or the long name of the day, in letters of either case.
abbrev pub IsDayOf : Text → Weekday → Type 0
IsDayOf t d = (to_ascii_lowercase t ≡ short_name d) ⊎ (to_ascii_lowercase t ≡ long_name d)

named :
    (t : Text) (d : Weekday)
    → text_eq (to_ascii_lowercase t) (short_name d) || text_eq (to_ascii_lowercase t) (long_name d)
      ≡ true
    → IsDayOf t d
named t d h = go (text_eq (to_ascii_lowercase t) (short_name d)) refl h
  where
    go :
        (b : Bool)
        → text_eq (to_ascii_lowercase t) (short_name d) ≡ b
        → b || text_eq (to_ascii_lowercase t) (long_name d) ≡ true
        → IsDayOf t d
    go true e h' = inl (text_eq→eq _ _ e)
    go false e h' = inr (text_eq→eq _ _ h')

module _ (t : Text) (d : Weekday) where
  -- The first test that holds gives the day.
  tested :
      (b : Bool) (e : Weekday) (others : Option Weekday)
      → (b ≡ true → IsDayOf t e)
      → (others ≡ some d → IsDayOf t d)
      → (if b then some e else others) ≡ some d
      → IsDayOf t d
  tested true e others found else_found h = subst (IsDayOf t) (ground (arith, h)) (found refl)
  tested false e others found else_found h = else_found h

  pub parse_day-IsDayOf : parse_day t ≡ some d → IsDayOf t d
  unfolding parse_day is_word
  parse_day-IsDayOf = tested _ mon _ (named t mon) (
      tested _ tue _ (named t tue) (
        tested _ wed _ (named t wed) (
          tested _ thu _ (named t thu) (
            tested _ fri _ (named t fri) (
              tested _ sat _ (named t sat)
                (tested _ sun _ (named t sun) (λ h. absurd (ground (arith, h)))))))))

pub IsDayOf-parse_day : (t : Text) (d : Weekday) → IsDayOf t d → parse_day t ≡ some d
unfolding parse_day is_word
IsDayOf-parse_day t mon (inl e) = rw e refl
IsDayOf-parse_day t mon (inr e) = rw e refl
IsDayOf-parse_day t tue (inl e) = rw e refl
IsDayOf-parse_day t tue (inr e) = rw e refl
IsDayOf-parse_day t wed (inl e) = rw e refl
IsDayOf-parse_day t wed (inr e) = rw e refl
IsDayOf-parse_day t thu (inl e) = rw e refl
IsDayOf-parse_day t thu (inr e) = rw e refl
IsDayOf-parse_day t fri (inl e) = rw e refl
IsDayOf-parse_day t fri (inr e) = rw e refl
IsDayOf-parse_day t sat (inl e) = rw e refl
IsDayOf-parse_day t sat (inr e) = rw e refl
IsDayOf-parse_day t sun (inl e) = rw e refl
IsDayOf-parse_day t sun (inr e) = rw e refl

-- The day has a name among the texts.
abbrev pub IsNamed : List Text → Weekday → Type 0
IsNamed names d = (t : Text) × Memᴰ t names × IsDayOf t d

pub parse_days-IsNamed :
    (names : List Text) (d : Weekday) → Memᴰ d (parse_days names) → IsNamed names d
unfolding parse_days
parse_days-IsNamed [] d m = elim m [ ]
parse_days-IsNamed (t ∷ names) d m =
    go (parse_day t) refl (λ m'. later (parse_days-IsNamed names d m')) m
  where
    later : IsNamed names d → IsNamed (t ∷ names) d
    later (u, m', h) = (u, Memᴰ.tail m', h)

    go :
        (o : Option Weekday)
        → parse_day t ≡ o
        → (Memᴰ d (parse_days names) → IsNamed (t ∷ names) d)
        → Memᴰ d (cons_some o (parse_days names))
        → IsNamed (t ∷ names) d
    go none e ih m' = ih m'
    go (some x) e ih (Memᴰ.head p) =
        (t, Memᴰ.head refl, parse_day-IsDayOf t d (subst (λ y. parse_day t ≡ some y) (sym p) e))
    go (some x) e ih (Memᴰ.tail m') = ih m'

pub IsNamed-parse_days :
    (names : List Text) (d : Weekday) → IsNamed names d → Memᴰ d (parse_days names)
unfolding parse_days
IsNamed-parse_days [] d (t, m, h) = elim m [ ]
IsNamed-parse_days (u ∷ names) d (t, Memᴰ.head p, h) =
    rw (IsDayOf-parse_day u d (subst (λ x. IsDayOf x d) p h)) (Memᴰ.head refl)
IsNamed-parse_days (u ∷ names) d (t, Memᴰ.tail m, h) =
    go (parse_day u) (IsNamed-parse_days names d (t, m, h))
  where
    go : (o : Option Weekday) → Memᴰ d (parse_days names) → Memᴰ d (cons_some o (parse_days names))
    go none m' = m'
    go (some x) m' = Memᴰ.tail m'
