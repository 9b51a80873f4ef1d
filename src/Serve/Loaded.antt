-- ===== src/Serve/Loaded.antt =====
-- Which engines of the cache are loaded, through loading and unloading.
use d_inference.Prelude.{
  ◌≡◌, refl, sym, ap, ◌∙◌, subst, inl, inr, Bool, true, false, Option, none, some, arith, ◌==◌,
  if◌then◌else◌, ==_iff, Bool-cases, Option-cases, Text, text_eq, text_eq_refl, suc, ℕ,
}
use d_inference.Coordinator.StatusMap.{insert, lookup, lookup-insert}
use d_inference.Serve.Engines.{Engines, set_loaded, load_new, get_or_load_inprocess_engine}

-- Every engine of the cache is loaded.
abbrev pub AllLoaded : Engines → Type 0
AllLoaded e = (id : Text) (n : ℕ) → lookup id e.cache ≡ some n → e.is_loaded n ≡ true

-- Nothing that was loaded stops being so.
abbrev pub KeepsLoaded : Engines → Engines → Type 0
KeepsLoaded e e' = (n : ℕ) → e.is_loaded n ≡ true → e'.is_loaded n ≡ true

-- What a load gives for a model: an engine that is loaded and cached, the one that was cached before
-- unless it is fresh; or an error, if nothing was cached and the load failed.
abbrev pub IsGiven : Bool → Text → Engines → Engines × Option (ℕ × Bool) → Type 0
IsGiven loads id e (e', none) = (loads ≡ false) × (lookup id e.cache ≡ none) × (e'.cache ≡ e.cache)
IsGiven loads id e (e', some (n, fresh)) =
    (e'.is_loaded n ≡ true)
    × (lookup id e'.cache ≡ some n)
    × (lookup id e.cache ≡ (if fresh then none else some n))

set_loaded_lem :
    (n m : ℕ) (is_loaded : ℕ → Bool) → is_loaded m ≡ true → set_loaded n is_loaded m ≡ true
set_loaded_lem n m is_loaded h = elim (Bool-cases (m == n)) [ inl y ↦ rw y refl | inr k ↦ rw k h ]

set_loaded_same : (n : ℕ) (is_loaded : ℕ → Bool) → set_loaded n is_loaded n ≡ true
set_loaded_same n is_loaded = rw ((==_iff n n).1 refl) refl

inserted-AllLoaded :
    (model : Text) (e : Engines)
    → AllLoaded e
    → AllLoaded (record {
      cache = insert model e.next e.cache;
      is_loaded = set_loaded e.next e.is_loaded;
      next = suc e.next;
    })
inserted-AllLoaded model e all id n found =
    from_test (text_eq id model) (sym (lookup-insert id model e.next e.cache) ∙ found)
  where
    from_test :
        (b : Bool)
        → (if b then some e.next else lookup id e.cache) ≡ some n
        → set_loaded e.next e.is_loaded n ≡ true
    from_test true h =
        subst (λ (m : ℕ). set_loaded e.next e.is_loaded m ≡ true) (ground (arith, h))
          (set_loaded_same e.next e.is_loaded)
    from_test false h = set_loaded_lem e.next n e.is_loaded (all id n h)

-- A load for a model out of a cache with loaded engines only.
abbrev pub Loads : Bool → Text → Engines → Engines × Option (ℕ × Bool) → Type 0
Loads loads id e r = AllLoaded r.0 × KeepsLoaded e r.0 × IsGiven loads id e r

load_new-Loads :
    (loads : Bool) (id : Text) (e : Engines)
    → AllLoaded e
    → lookup id e.cache ≡ none
    → Loads loads id e (load_new loads id e)
unfolding load_new
load_new-Loads false id e all fresh = (all, λ n h. h, (refl, fresh, refl))
load_new-Loads true id e all fresh =
    rw (fresh, load_new)
      (
        inserted-AllLoaded id e all,
        λ n h. set_loaded_lem e.next n e.is_loaded h,
        (
          set_loaded_same e.next e.is_loaded,
          lookup-insert id id e.next e.cache
              ∙ ap (λ (b : Bool). if b then some e.next else lookup id e.cache) (text_eq_refl id),
          refl,
        ),
      )

-- When every engine of the cache is loaded, `get_or_load_inprocess_engine` keeps that so and unloads
-- nothing; it returns the engine that was cached for the model, or caches and returns a fresh one
-- that is loaded, or fails, which it does only if nothing was cached and the load failed.
pub get_or_load_inprocess_engine-Loads :
    (loads : Bool) (id : Text) (e : Engines)
    → AllLoaded e
    → Loads loads id e (get_or_load_inprocess_engine loads id e)
unfolding get_or_load_inprocess_engine
get_or_load_inprocess_engine-Loads loads id e all = elim (Option-cases (lookup id e.cache)) [
  | inl none' ↦ rw (none', get_or_load_inprocess_engine) (load_new-Loads loads id e all none')
  | inr (n, cached) ↦
      rw (cached, get_or_load_inprocess_engine)
        (rw (all id n cached) (all, λ m h. h, (all id n cached, cached, cached)))
]
