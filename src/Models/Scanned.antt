-- ===== src/Models/Scanned.antt =====
use mathlib.Core.List.{Permᴰ}
use d_inference.Models.Ordered.{IsOrder, IsAscending, sort-IsAscending, sort-Permᴰ}
use d_inference.Models.Scan.{
  FloatApi, scan_models_in_dir, ModelInfo, by_memory, fitting_models, model_in, push_fitting,
}
use d_inference.Json.{JsonApi}
use d_inference.Models.Snapshots.{
  Snapshot, find_latest_snapshot, ModelDir, latest_from, modified_at, find_in, keep_latest,
}
use mathlib.Core.List.Permᴰ
use d_inference.Prelude.{
  true, false, refl, sym, List, Option, All, Memᴰ, ◌≡◌, Text, some, ◌∙◌, ℕ, ◌∷◌, ◌≤◌, ◌⊎◌, [], ◌↔◌,
  Bool, ap, inl, none, arith, if◌then◌else◌, some_inj, some_of_none, inr, subst, ltb, ltb→lt,
}

-- What a scan of the cache finds (provider/src/models.rs).

-- A snapshot that no directory of the list is later than.
abbrev pub IsLatest : Snapshot → List Snapshot → Type 0
IsLatest s = All (λ t. t.is_dir ≡ true → modified_at t ≤ modified_at s)

record FromLatest (latest : Option Snapshot) (snapshots : List Snapshot) (s : Snapshot)
    : Type 0 where
  comes : (latest ≡ some s) ⊎ ((s.is_dir ≡ true) × Memᴰ s snapshots)
  is_latest : IsLatest s snapshots
  after : (t : Snapshot) → latest ≡ some t → modified_at t ≤ modified_at s

latest_from-FromLatest :
    (latest : Option Snapshot) (snapshots : List Snapshot) (s : Snapshot)
    → latest_from latest snapshots ≡ some s
    → FromLatest latest snapshots s
unfolding latest_from
latest_from-FromLatest latest [] s h = record {
  comes = inl h;
  is_latest = tt;
  after = λ t e. omega (arith, ap modified_at (some_inj (sym e ∙ h)));
}
latest_from-FromLatest latest (x ∷ rest) s h =
    go (x.is_dir) refl latest
      (latest_from-FromLatest (if x.is_dir then keep_latest x latest else latest) rest s h)
  where
    -- The directory is the latest so far.
    replaced :
        (o : Option Snapshot)
        → x.is_dir ≡ true
        → ((t : Snapshot) → o ≡ some t → modified_at t ≤ modified_at x)
        → FromLatest (some x) rest s
        → FromLatest o (x ∷ rest) s
    replaced o e earlier f = record {
      comes = inr (elim (f.comes) [
        | inl g ↦ (subst (λ z. z.is_dir ≡ true) (some_inj g) e, Memᴰ.head (sym (some_inj g)))
        | inr (d, m) ↦ (d, Memᴰ.tail m)
      ]);
      is_latest = (λ d. f.after x refl, f.is_latest);
      after = λ t g. omega (arith, earlier t g, f.after x refl);
    }

    kept :
        (o : Option Snapshot)
        → (x.is_dir ≡ true → modified_at x ≤ modified_at s)
        → FromLatest o rest s
        → FromLatest o (x ∷ rest) s
    kept o d f = record {
      comes = elim (f.comes) [ inl g ↦ inl g | inr (d', m) ↦ inr (d', Memᴰ.tail m) ];
      is_latest = (d, f.is_latest);
      after = f.after;
    }

    with_time :
        (l : Snapshot) (b : Bool)
        → ltb (modified_at l) (modified_at x) ≡ b
        → x.is_dir ≡ true
        → FromLatest (if b then some x else some l) rest s
        → FromLatest (some l) (x ∷ rest) s
    with_time l true c e f =
        replaced (some l) e
          (λ t g.
            omega (arith, ap modified_at (some_inj g), ltb→lt (modified_at l) (modified_at x) c))
          f
    with_time l false c e f = kept (some l) (λ d. ground (arith, c, f.after l refl)) f

    go :
        (b : Bool)
        → x.is_dir ≡ b
        → (o : Option Snapshot) → FromLatest (if b then keep_latest x o else o) rest s
        → FromLatest o (x ∷ rest) s
    go false e o f = kept o (λ d. absurd (ground arith)) f
    go true e none f = replaced none e (λ t g. some_of_none (sym g)) f
    go true e (some l) f = with_time l (ltb (modified_at l) (modified_at x)) refl e f

-- The snapshot that is found is a directory of the list, and no directory of the list was changed
-- after it.
find_latest_snapshot-IsLatest :
    (d : ModelDir) (snapshots : List Snapshot) (s : Snapshot)
    → d.snapshots ≡ some snapshots
    → find_latest_snapshot d ≡ some s
    → (s.is_dir ≡ true) × Memᴰ s snapshots × IsLatest s snapshots
unfolding find_latest_snapshot
find_latest_snapshot-IsLatest d snapshots s e h =
    let f = latest_from-FromLatest none snapshots s (sym (ap find_in e) ∙ h) in
    elim (f.comes) [ inl g ↦ some_of_none (sym g) | inr (d', m) ↦ (d', m, f.is_latest) ]

Memᴰ-Permᴰ {ℓ} : {A : Type ℓ} {x : A} {xs ys : List A} → Permᴰ xs ys → Memᴰ x xs → Memᴰ x ys
Memᴰ-Permᴰ Permᴰ.nil m = m
Memᴰ-Permᴰ (Permᴰ.cons e p) (Memᴰ.head f) = Memᴰ.head (f ∙ e)
Memᴰ-Permᴰ (Permᴰ.cons e p) (Memᴰ.tail m) = Memᴰ.tail (Memᴰ-Permᴰ p m)
Memᴰ-Permᴰ (Permᴰ.swap e f) (Memᴰ.head g) = Memᴰ.tail (Memᴰ.head (g ∙ e))
Memᴰ-Permᴰ (Permᴰ.swap e f) (Memᴰ.tail (Memᴰ.head g)) = Memᴰ.head (g ∙ f)
Memᴰ-Permᴰ (Permᴰ.swap e f) (Memᴰ.tail (Memᴰ.tail m)) = Memᴰ.tail (Memᴰ.tail m)
Memᴰ-Permᴰ (Permᴰ.trans p q) m = Memᴰ-Permᴰ q (Memᴰ-Permᴰ p m)

module _ (json : JsonApi) (float : FloatApi) (sha256 hex : Text → Text) where
  -- A directory of the cache has this model, and it fits in the memory.
  abbrev pub Fits : List ModelDir → ℕ → ModelInfo (float.Float) → Type 0
  Fits dirs available info =
      (d : ModelDir) × Memᴰ d dirs
      × (model_in json float sha256 hex d ≡ some info)
      × (float.fits_in (info.estimated_memory_gb) available ≡ true)

  fitting_models-Fits :
      (available : ℕ) (dirs : List ModelDir) (info : ModelInfo (float.Float))
      → Memᴰ info (fitting_models json float sha256 hex available dirs)
      → Fits dirs available info
  unfolding fitting_models
  fitting_models-Fits available [] info m = elim m [ ]
  fitting_models-Fits available (d ∷ dirs) info m =
      go (model_in json float sha256 hex d) refl m (fitting_models-Fits available dirs info)
    where
      later : Fits dirs available info → Fits (d ∷ dirs) available info
      later (d', m', h, fits) = (d', Memᴰ.tail m', h, fits)

      choose :
          (i : ModelInfo (float.Float)) (b : Bool)
          → float.fits_in (i.estimated_memory_gb) available ≡ b
          → model_in json float sha256 hex d ≡ some i
          → Memᴰ info (
              if b
              then i ∷ fitting_models json float sha256 hex available dirs
              else fitting_models json float sha256 hex available dirs)
          → (Memᴰ info (fitting_models json float sha256 hex available dirs)
              → Fits dirs available info)
          → Fits (d ∷ dirs) available info
      choose i true e h (Memᴰ.head same) rec = (
        d,
        Memᴰ.head refl,
        h ∙ ap (λ (z : ModelInfo (float.Float)). some z) (sym same),
        ap (λ (z : ModelInfo (float.Float)). float.fits_in (z.estimated_memory_gb) available) same
            ∙ e,
      )
      choose i true e h (Memᴰ.tail m) rec = later (rec m)
      choose i false e h m rec = later (rec m)

      go :
          (o : Option (ModelInfo (float.Float)))
          → model_in json float sha256 hex d ≡ o
          → Memᴰ info (
              push_fitting json float sha256 hex available o
                (fitting_models json float sha256 hex available dirs))
          → (Memᴰ info (fitting_models json float sha256 hex available dirs)
              → Fits dirs available info)
          → Fits (d ∷ dirs) available info
      go none h m rec = later (rec m)
      go (some i) h m rec = choose i (float.fits_in (i.estimated_memory_gb) available) refl h m rec

  Fits-fitting_models :
      (available : ℕ) (dirs : List ModelDir) (info : ModelInfo (float.Float))
      → Fits dirs available info
      → Memᴰ info (fitting_models json float sha256 hex available dirs)
  unfolding fitting_models
  Fits-fitting_models available [] info (d, m, h, fits) = elim m [ ]
  Fits-fitting_models available (d ∷ dirs) info (d', Memᴰ.head same, h, fits) =
      rw (ap (model_in json float sha256 hex) (sym same) ∙ h) rw fits (Memᴰ.head refl)
  Fits-fitting_models available (d ∷ dirs) info (d', Memᴰ.tail m, h, fits) =
      pushed (model_in json float sha256 hex d)
        (Fits-fitting_models available dirs info (d', m, h, fits))
    where
      keeps :
          (i : ModelInfo (float.Float)) (models : List (ModelInfo (float.Float))) (b : Bool)
          → Memᴰ info models
          → Memᴰ info (if b then i ∷ models else models)
      keeps i models true m = Memᴰ.tail m
      keeps i models false m = m

      pushed :
          (o : Option (ModelInfo (float.Float))) {models : List (ModelInfo (float.Float))}
          → Memᴰ info models
          → Memᴰ info (push_fitting json float sha256 hex available o models)
      pushed none m = m
      pushed (some i) {models} m =
          keeps i models (float.fits_in (i.estimated_memory_gb) available) m

  -- If the comparison of floats is a total order, the scan of a cache lists a model exactly if a
  -- directory of the cache has it and its memory fits, and it lists the models in ascending order of
  -- their memory.
  pub scan_models_in_dir-Fits :
      (dirs : List ModelDir) (available : ℕ)
      → IsOrder (by_memory json float sha256 hex)
      → IsAscending
          (by_memory json float sha256 hex)
          (scan_models_in_dir json float sha256 hex (some dirs) available)
        × ((info : ModelInfo (float.Float))
            → (Memᴰ info (scan_models_in_dir json float sha256 hex (some dirs) available))
              ↔ (Fits dirs available info))
  unfolding scan_models_in_dir
  scan_models_in_dir-Fits dirs available order =
      let models = fitting_models json float sha256 hex available dirs in
      let compare = by_memory json float sha256 hex in
      (
        sort-IsAscending compare order models,
        λ info. (
          (λ m. fitting_models-Fits available dirs info (Memᴰ-Permᴰ (sort-Permᴰ compare models) m)),
          λ f.
              Memᴰ-Permᴰ (Permᴰ.symm (sort-Permᴰ compare models))
                (Fits-fitting_models available dirs info f),
        ),
      )
