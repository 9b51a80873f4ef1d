-- ===== src/Models/Examples.antt =====
use d_inference.Models.Scanned.{Fits, scan_models_in_dir-Fits}
use d_inference.Models.Hashed.{hash_snapshot_perm}
use d_inference.Models.Resolved.{IsFileName, resolve_local_path-model_in}
use d_inference.Models.Ordered.{IsAscending, IsOrder}
use d_inference.Models.Scan.{
  FloatApi, ModelInfo, hash_snapshot, model_in, scan_models_in_dir, by_memory, resolve_local_path,
  find_dir,
}
use d_inference.Json.{JsonApi}
use mathlib.Core.List.Permᴰ
use d_inference.Models.Snapshots.{Meta, Snapshot, Entry, ModelDir, find_latest_snapshot}
use d_inference.Prelude.{
  true, refl, arith, List, String, Text, ℕ, ◌≡◌, Memᴰ, codes, leb, map, some, ◌∷◌, [], none,
  text_eq, ◌↔◌, any-All, ◌==◌,
}

-- A cache with two models (provider/src/models.rs).

-- Values are texts, and no text has fields.
abbrev bare_json : JsonApi
bare_json = record {
  Value = Text;
  from_str = λ s. some s;
  to_string = λ v. v;
  get = λ v key. none;
  as_bool = λ v. none;
  as_u64 = λ v. none;
  as_str = λ v. some v;
  as_array = λ v. none;
}

abbrev whole_float : FloatApi
whole_float = record { Float = ℕ; estimate_gb = λ n. n; fits_in = leb; not_greater = leb }

-- The hash of a text is the text.
abbrev same_text : Text → Text
same_text t = t

abbrev entry : String → Meta → Entry
entry name meta = record { file_name = codes name; meta = meta }

abbrev listing : ℕ → List Entry
listing size =
    entry "model.safetensors" (Meta.is_symlink (some size))
    ∷ entry "README.md" (Meta.is_file 9)
    ∷ entry "config.json" (Meta.is_file 2)
    ∷ []

abbrev listing_swapped : ℕ → List Entry
listing_swapped size =
    entry "README.md" (Meta.is_file 9)
    ∷ entry "model.safetensors" (Meta.is_symlink (some size))
    ∷ entry "config.json" (Meta.is_file 2)
    ∷ []

abbrev snapshot : List Entry → ℕ → Snapshot
snapshot entries time = record {
  is_dir = true;
  modified = some time;
  exists = λ name. text_eq name (codes "model.safetensors");
  read_to_string = λ name. some name;
  read_dir = some entries;
}

abbrev snapshots : ℕ → List Snapshot
snapshots size = snapshot (listing 1) 3 ∷ snapshot (listing size) 7 ∷ snapshot (listing 2) 7 ∷ []

abbrev model_dir : String → ℕ → ModelDir
model_dir name size = record { dir_name = codes name; snapshots = some (snapshots size) }

abbrev cache : List ModelDir
cache =
    model_dir "models--org--big-MLX" 6
    ∷ model_dir "models--small--4bit" 4
    ∷ model_dir "other" 3
    ∷ []

abbrev big : ModelInfo ℕ
big = record {
  id = codes "org/big-MLX";
  model_type = none;
  parameters = none;
  quantization = none;
  size_bytes = 6;
  estimated_memory_gb = 6;
  weight_hash = none;
}

big_found :
    model_in bare_json whole_float same_text same_text (model_dir "models--org--big-MLX" 6)
    ≡ some big
unfolding model_in
big_found = refl

scanned :
    map
      (λ i. i.size_bytes)
      (scan_models_in_dir bare_json whole_float same_text same_text (some cache) 6)
    ≡ 4 ∷ 6 ∷ []
unfolding scan_models_in_dir
scanned = refl

leb-IsOrder : IsOrder (by_memory bare_json whole_float same_text same_text)
leb-IsOrder = record {
  total = λ x y h. ground (arith, h);
  transitive = λ x y z h k. ground (arith, h, k);
}

big_IsFileName : IsFileName (codes "models--org--big-MLX")
big_IsFileName = any-All (λ c. c == b'/') (codes "models--org--big-MLX") refl

resolve_local_path-model_in_example :
    (s : Snapshot) × (find_latest_snapshot (model_dir "models--org--big-MLX" 6) ≡ some s)
    × (resolve_local_path cache (codes "org/big-MLX") ≡ some s)
resolve_local_path-model_in_example =
    resolve_local_path-model_in bare_json whole_float same_text same_text cache
      (model_dir "models--org--big-MLX" 6) big (unfold find_dir in refl) big_IsFileName big_found

scan_models_in_dir-Fits_example :
    IsAscending
      (by_memory bare_json whole_float same_text same_text)
      (scan_models_in_dir bare_json whole_float same_text same_text (some cache) 6)
    × ((info : ModelInfo ℕ)
        → (Memᴰ info (scan_models_in_dir bare_json whole_float same_text same_text (some cache) 6))
          ↔ (Fits bare_json whole_float same_text same_text cache 6 info))
scan_models_in_dir-Fits_example =
    scan_models_in_dir-Fits bare_json whole_float same_text same_text cache 6 leb-IsOrder

hash_snapshot_perm_example :
    hash_snapshot same_text same_text (snapshot (listing 6) 7)
    ≡ hash_snapshot same_text same_text (snapshot (listing_swapped 6) 7)
hash_snapshot_perm_example =
    hash_snapshot_perm same_text same_text (snapshot (listing 6) 7) (snapshot (listing_swapped 6) 7)
      (listing 6) (listing_swapped 6) refl refl (Permᴰ.swap refl refl) refl
