-- ===== src/Serve/Engines.antt =====
-- The cache of engines: `get_or_load_inprocess_engine` and `unload_inprocess_engines`.
use d_inference.Prelude.{
  Bool, true, false, not, ◌&&◌, Option, none, some, List, [], ◌∷◌, ◌==◌, if◌then◌else◌, Text, ℕ,
  suc,
}
use d_inference.Coordinator.StatusMap.{insert, lookup}

-- Engines are numbered in the order in which they are made; `is_loaded` is what each says of itself.
pub record Engines : Type 0 where
  pub cache : List (Text × ℕ)
  pub is_loaded : ℕ → Bool
  pub next : ℕ

abbrev pub set_loaded : ℕ → (ℕ → Bool) → ℕ → Bool
set_loaded n is_loaded m = if m == n then true else is_loaded m

-- `entry(model_id).or_insert_with(|| engine)`.
abbrev pub or_insert : Text → ℕ → Engines → Option ℕ → Engines × ℕ
or_insert model_id engine e none = (record e { cache = insert model_id engine e.cache }, engine)
or_insert model_id engine e (some old) = (e, old)

-- A new engine, which loads or fails to.
unfoldable pub load_new : Bool → Text → Engines → Engines × Option (ℕ × Bool)
load_new loads model_id e =
    let engine = e.next in
    let made = record e { next = suc e.next } in
    if not loads
    then (made, none)
    else (let (e', entry) =
          or_insert model_id engine (record made { is_loaded = set_loaded engine e.is_loaded })
            (lookup model_id e.cache) in
        (e', some (entry, true)))

-- The engine for the model, and whether one was freshly loaded; `none` is an error.
abbrev pub cached_or_new : Bool → Text → Engines → Option ℕ → Engines × Option (ℕ × Bool)
cached_or_new loads model_id e none = load_new loads model_id e
cached_or_new loads model_id e (some engine) =
    if e.is_loaded engine then (e, some (engine, false)) else load_new loads model_id e

unfoldable pub get_or_load_inprocess_engine : Bool → Text → Engines → Engines × Option (ℕ × Bool)
unfolding load_new
get_or_load_inprocess_engine loads model_id e =
    cached_or_new loads model_id e (lookup model_id e.cache)

-- `unloads` tells which engines' unloading succeeds; a failure is only logged.
abbrev pub unloaded : (ℕ → Bool) → List (Text × ℕ) → (ℕ → Bool) → ℕ → Bool
unloaded unloads [] is_loaded m = is_loaded m
unloaded unloads ((id, n) ∷ rest) is_loaded m =
    if m == n && unloads n then false else unloaded unloads rest is_loaded m

unfoldable pub unload_inprocess_engines : (ℕ → Bool) → Engines → Engines
unload_inprocess_engines unloads e = record e {
  cache = [];
  is_loaded = unloaded unloads e.cache e.is_loaded;
}
