-- ===== src/Models/Resolved.antt =====
use d_inference.Models.Names.{dashes, slashes, models_prefix, model_name}
use d_inference.Models.Snapshots.{ModelDir, Snapshot, find_latest_snapshot, collect_weight_files}
use d_inference.Models.Scan.{
  FloatApi, model_in, ModelInfo, find_dir, resolve_local_path, parse_model_info_opt, or_snapshot,
  if_mlx, is_mlx_model,
}
use d_inference.Json.{JsonApi}
use d_inference.Prelude.{
  true, false, refl, sym, Text, All, starts_with, ℕ, ◌≡◌, List, ◌++◌, ◌==◌, ◌∷◌, drop, ◌&&◌, ◌∙◌,
  ap, length, some, arith, codes, Bool-cases, [], inl, inr, Bool, suc, ◌>>=◌, Option, zero,
  if◌then◌else◌, some_of_none, none,
}

-- The id of a scanned model leads back to its snapshot (provider/src/models.rs).

dashes_plain : (c : ℕ) (s : Text) → (c == b'/') ≡ false → dashes (c ∷ s) ≡ c ∷ dashes s
unfolding dashes
dashes_plain c s e = rw e refl

slashes_pair :
    (a b : ℕ) (s : Text) → (a == b'-' && b == b'-') ≡ true → slashes (a ∷ b ∷ s) ≡ b'/' ∷ slashes s
unfolding slashes
slashes_pair a b s e = rw (e, slashes) refl

slashes_single :
    (a b : ℕ) (s : Text)
    → (a == b'-' && b == b'-') ≡ false
    → slashes (a ∷ b ∷ s) ≡ a ∷ slashes (b ∷ s)
unfolding slashes
slashes_single a b s e = rw (e, slashes) refl

-- No slash stands in the name of a directory.
abbrev pub IsFileName : Text → Type 0
IsFileName = All (λ c. (c == b'/') ≡ false)

dashes_slash : (s : Text) → dashes (b'/' ∷ s) ≡ codes "--" ++ dashes s
unfolding dashes
dashes_slash s = refl

dashes-slashes : (s : Text) → IsFileName s → dashes (slashes s) ≡ s
dashes-slashes [] h = unfold dashes slashes in refl
dashes-slashes (a ∷ []) (ha, h) = unfold slashes dashes in (dashes_plain a [] ha)
dashes-slashes (a ∷ b ∷ s) (ha, (hb, h)) = elim (Bool-cases (a == b'-' && b == b'-')) [
  | inl e ↦
      ap dashes (slashes_pair a b s e)
      ∙ dashes_slash (slashes s)
      ∙ ap (λ z. codes "--" ++ z) (dashes-slashes s h)
      ∙ two a b e
  | inr e ↦
      ap dashes (slashes_single a b s e)
      ∙ dashes_plain a (slashes (b ∷ s)) ha
      ∙ ap (◌∷◌ a) (dashes-slashes (b ∷ s) (hb, h))
]
  where
    two : (x y : ℕ) → (x == b'-' && y == b'-') ≡ true → codes "--" ++ s ≡ x ∷ y ∷ s
    two x y e = ground arith

All-drop {ℓ κ} : {A : Type ℓ} (P : A → Type κ) (n : ℕ) (xs : List A) → All P xs → All P (drop n xs)
All-drop P zero xs h = h
All-drop P (suc n) [] h = tt
All-drop P (suc n) (x ∷ xs) (_, h) = All-drop P n xs h

model_name_prefixed :
    (name : Text)
    → starts_with name models_prefix ≡ true
    → model_name name ≡ slashes (drop (length models_prefix) name)
unfolding model_name
model_name_prefixed name e = rw e refl

drop_prefix : (p s : Text) → starts_with s p ≡ true → s ≡ p ++ drop (length p) s
drop_prefix [] s h = refl
drop_prefix (b ∷ p) [] h = cc
drop_prefix (b ∷ p) (a ∷ s) h = ground (arith, drop_prefix p s)

some_else {ℓ} : {A : Type ℓ} (b : Bool) (x y : A) → (if b then none else some x) ≡ some y → x ≡ y
some_else true x y h = absurd (ground arith)
some_else false x y h = cc

module _ (json : JsonApi) (float : FloatApi) (sha256 hex : Text → Text) where
  -- A model that is found in a directory has a snapshot there, the directory's name has the prefix,
  -- and the id is that of the directory.
  record IsFound (d : ModelDir) (info : ModelInfo (float.Float)) : Type 0 where
    pub snapshot : Snapshot
    pub is_latest : find_latest_snapshot d ≡ some snapshot
    has_prefix : starts_with (d.dir_name) models_prefix ≡ true
    has_id : info.id ≡ model_name (d.dir_name)

  parse_model_info_opt-id :
      (s : Snapshot) (name : Text) (hashed : Bool) (info : ModelInfo (float.Float))
      → parse_model_info_opt json float sha256 hex s name hashed ≡ some info
      → info.id ≡ name
  unfolding parse_model_info_opt
  parse_model_info_opt-id s name hashed info h =
      sym (ap (λ i. i.id) (some_else ((collect_weight_files s).0 == 0) _ info h))

  model_in-IsFound :
      (d : ModelDir) (info : ModelInfo (float.Float))
      → model_in json float sha256 hex d ≡ some info
      → IsFound d info
  unfolding model_in
  model_in-IsFound d info h =
      go (starts_with (d.dir_name) models_prefix) (find_latest_snapshot d) refl refl h
    where
      go :
          (b : Bool) (o : Option Snapshot)
          → starts_with (d.dir_name) models_prefix ≡ b
          → find_latest_snapshot d ≡ o
          → (if b then if_mlx json float sha256 hex (model_name (d.dir_name)) o else none)
            ≡ some info
          → IsFound d info
      go false o e f h = some_of_none (sym h)
      go true none e f h = some_of_none (sym h)
      go true (some s) e f h = record {
        snapshot = s;
        is_latest = f;
        has_prefix = e;
        has_id = elim (Bool-cases (is_mlx_model s (model_name (d.dir_name)))) [
          | inl g ↦
              parse_model_info_opt-id s (model_name (d.dir_name)) false info (sym (rw g refl) ∙ h)
          | inr g ↦ some_of_none (sym (sym (rw g refl) ∙ h))
        ];
      }

  -- If a directory is the first of its name in the cache and its name has no slash, the id of the
  -- model that the scan finds in it resolves to its latest snapshot, from which the scan took the
  -- model.
  pub resolve_local_path-model_in :
      (cache : List ModelDir) (d : ModelDir) (info : ModelInfo (float.Float))
      → find_dir (d.dir_name) cache ≡ some d
      → IsFileName (d.dir_name)
      → model_in json float sha256 hex d ≡ some info
      → (s : Snapshot) × (find_latest_snapshot d ≡ some s)
        × (resolve_local_path cache (info.id) ≡ some s)
  resolve_local_path-model_in cache d info first plain h =
      let found = model_in-IsFound d info h in
      let rest = drop (length models_prefix) (d.dir_name) in
      let same : models_prefix ++ dashes (info.id) ≡ d.dir_name =
        ap (λ z. models_prefix ++ dashes z)
          (found.has_id ∙ model_name_prefixed (d.dir_name) (found.has_prefix))
        ∙ ap (λ z. models_prefix ++ z)
            (dashes-slashes rest
              (All-drop (λ c. (c == b'/') ≡ false) (length models_prefix) (d.dir_name) plain))
        ∙ sym (drop_prefix models_prefix (d.dir_name) (found.has_prefix)) in
      let there : (find_dir (models_prefix ++ dashes (info.id)) cache >>= find_latest_snapshot)
          ≡ some (found.snapshot) =
        ap (λ z. z >>= find_latest_snapshot) (ap (λ z. find_dir z cache) same ∙ first)
        ∙ found.is_latest in
      (
        found.snapshot,
        found.is_latest,
        unfold resolve_local_path in
            (ap
              (λ z.
                or_snapshot z (find_dir (models_prefix ++ info.id) cache >>= find_latest_snapshot))
              there),
      )
