-- ===== src/Models/Scan.antt =====
use d_inference.Models.Snapshots.{
  Snapshot, collect_weight_files, find_latest_snapshot, ModelDir, hash_files_sorted,
}
use d_inference.Models.Sort.{sort}
use d_inference.Models.Names.{dashes, model_name, models_prefix}
use d_inference.Json.{JsonApi}
use d_inference.Prelude.{
  true, false, ◌>>=◌, Option, Text, ℕ, Bool, List, codes, decimal, some, ◌%◌, contains,
  if◌then◌else◌, none, to_ascii_lowercase, unwrap_or, ◌++◌, ◌^◌, ◌||◌, [], is_empty, starts_with,
  ◌&&◌, ◌*◌, ◌==◌, ◌∷◌, text_eq, ◌/◌, ◌+◌,
}

-- The scan of the cache and the look-up of a model in it (provider/src/models.rs).

-- What is used of 64-bit floats: the estimate of the memory for a size, whether it is at most a whole
-- number of gigabytes, and `partial_cmp`, as whether it is not `Greater`.
pub record FloatApi : Type 1 where
  pub Float : Type 0
  pub estimate_gb : ℕ → Float
  pub fits_in : Float → ℕ → Bool
  pub not_greater : Float → Float → Bool

pub record ModelInfo (F : Type 0) : Type 0 where
  pub id : Text
  pub model_type : Option Text
  pub parameters : Option ℕ
  pub quantization : Option Text
  pub size_bytes : ℕ
  pub estimated_memory_gb : F
  pub weight_hash : Option Text

unfoldable has_mlx_weights : Snapshot → Bool
has_mlx_weights s =
    s.exists (codes "weights.npz")
    || (s.exists (codes "model.safetensors") || s.exists (codes "model.safetensors.index.json"))

-- `name.to_lowercase()`, for names in ASCII.
unfoldable pub is_mlx_model : Snapshot → Text → Bool
unfolding has_mlx_weights
is_mlx_model s name =
    let name_lower = to_ascii_lowercase name in
    if contains name_lower (codes "mlx")
    then true
    else if has_mlx_weights s
        && (contains name_lower (codes "4bit")
            || (contains name_lower (codes "8bit") || contains name_lower (codes "quantized")))
    then true
    else has_mlx_weights s && s.exists (codes "config.json")

module _ (json : JsonApi) where
  unfoldable pub number : json.Value → Text → Option ℕ
  number v key = json.get v key >>= json.as_u64

  -- A product or sum of 64 bits.
  abbrev wrap : ℕ → ℕ
  wrap n = n % 2 ^ 64

  unfoldable estimated_parameters : json.Value → Option ℕ
  unfolding number
  estimated_parameters v = do
    hidden ← number v (codes "hidden_size")
    layers ← number v (codes "num_hidden_layers")
    let vocab = unwrap_or (number v (codes "vocab_size")) 32000
    let core = wrap (wrap (wrap (12 * hidden) * hidden) * layers)
    some (wrap (core / 1000000 * 1000000 + wrap (vocab * hidden)))

  abbrev or_else : Option ℕ → Option ℕ → Option ℕ
  or_else none other = other
  or_else (some n) other = some n

  abbrev config_of : Option json.Value → Option Text × Option ℕ
  config_of none = (none, none)
  config_of (some v) = (
    json.get v (codes "model_type") >>= json.as_str,
    or_else (number v (codes "num_parameters")) (estimated_parameters v),
  )

  unfoldable parse_config_json : Snapshot → Option Text × Option ℕ
  unfolding number estimated_parameters
  parse_config_json s = config_of (s.read_to_string (codes "config.json") >>= json.from_str)

  abbrev quantized_bits : Option ℕ → Option Text
  quantized_bits none = none
  quantized_bits (some bits) = some (decimal bits ++ codes "bit")

  unfoldable detect_quantization : Text → Snapshot → Option Text
  unfolding decimal number
  detect_quantization name s =
      let has = contains (to_ascii_lowercase name) in
      if has (codes "4bit") || (has (codes "q4") || has (codes "int4"))
      then some (codes "4bit")
      else if has (codes "8bit") || (has (codes "q8") || has (codes "int8"))
      then some (codes "8bit")
      else if has (codes "3bit") || has (codes "q3")
      then some (codes "3bit")
      else if has (codes "bf16")
      then some (codes "bf16")
      else if has (codes "fp16") || has (codes "f16")
      then some (codes "fp16")
      else if s.exists (codes "quantize_config.json")
      then quantized_bits (
          s.read_to_string (codes "quantize_config.json") >>= json.from_str >>= λ v.
          number v (codes "bits"))
      else none

  module _ (float : FloatApi) (sha256 hex : Text → Text) where
    -- The contents that are hashed are those of the snapshot's files.
    unfoldable pub parse_model_info_opt : Snapshot → Text → Bool → Option (ModelInfo (float.Float))
    unfolding parse_config_json detect_quantization collect_weight_files hash_files_sorted
    parse_model_info_opt s name compute_hash =
        let config = if s.exists (codes "config.json") then parse_config_json s else (none, none) in
        let sums = collect_weight_files s in
        if sums.0 == 0
        then none
        else some (record {
          id = name;
          model_type = config.0;
          parameters = config.1;
          quantization = detect_quantization name s;
          size_bytes = sums.0;
          estimated_memory_gb = float.estimate_gb (sums.0);
          weight_hash =
              if compute_hash
              then hash_files_sorted sha256 hex (s.read_to_string) (sums.1)
              else none;
        })

    abbrev pub if_mlx : Text → Option Snapshot → Option (ModelInfo (float.Float))
    if_mlx name none = none
    if_mlx name (some s) = if is_mlx_model s name then parse_model_info_opt s name false else none

    -- What the loop finds in one directory, before it looks at the memory.
    unfoldable pub model_in : ModelDir → Option (ModelInfo (float.Float))
    unfolding model_name find_latest_snapshot is_mlx_model parse_model_info_opt
    model_in d =
        if starts_with (d.dir_name) models_prefix
        then if_mlx (model_name (d.dir_name)) (find_latest_snapshot d)
        else none

    abbrev pub push_fitting :
        ℕ
        → Option (ModelInfo (float.Float))
        → List (ModelInfo (float.Float))
        → List (ModelInfo (float.Float))
    push_fitting available none models = models
    push_fitting available (some info) models =
        if float.fits_in (info.estimated_memory_gb) available then info ∷ models else models

    unfoldable pub fitting_models : ℕ → List ModelDir → List (ModelInfo (float.Float))
    unfolding model_in
    fitting_models available [] = []
    fitting_models available (d ∷ dirs) =
        push_fitting available (model_in d) (fitting_models available dirs)

    abbrev pub by_memory : ModelInfo (float.Float) → ModelInfo (float.Float) → Bool
    by_memory a b = float.not_greater (a.estimated_memory_gb) (b.estimated_memory_gb)

    -- A cache that cannot be listed has no models.
    unfoldable pub scan_models_in_dir : Option (List ModelDir) → ℕ → List (ModelInfo (float.Float))
    unfolding fitting_models sort
    scan_models_in_dir none available = []
    scan_models_in_dir (some dirs) available = sort by_memory (fitting_models available dirs)

-- The first directory of a name.
unfoldable pub find_dir : Text → List ModelDir → Option ModelDir
find_dir name [] = none
find_dir name (d ∷ dirs) = elim (text_eq (d.dir_name) name) [
  | true ↦ some d
  | false ↦ find_dir name dirs
]

abbrev pub or_snapshot : Option Snapshot → Option Snapshot → Option Snapshot
or_snapshot none other = other
or_snapshot (some s) other = some s

-- The directory of the id with dashes, or that of the id as it is.
unfoldable pub resolve_local_path : List ModelDir → Text → Option Snapshot
unfolding find_dir dashes find_latest_snapshot
resolve_local_path cache model_id =
    or_snapshot (find_dir (models_prefix ++ dashes model_id) cache >>= find_latest_snapshot)
      (find_dir (models_prefix ++ model_id) cache >>= find_latest_snapshot)

module _ (sha256 hex : Text → Text) where
  unfoldable pub hash_snapshot : Snapshot → Option Text
  unfolding collect_weight_files hash_files_sorted
  hash_snapshot s =
      let paths = (collect_weight_files s).1 in
      if is_empty paths then none else hash_files_sorted sha256 hex (s.read_to_string) paths

  unfoldable compute_weight_hash : List ModelDir → Text → Option Text
  unfolding resolve_local_path hash_snapshot
  compute_weight_hash cache model_id = resolve_local_path cache model_id >>= hash_snapshot
