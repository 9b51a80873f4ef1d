-- ===== src/Models/Snapshots.antt =====
use d_inference.Models.Sort.{sort, text_le}
use d_inference.Prelude.{
  ◌>>=◌, Bool, List, Option, Text, ℕ, codes, is_empty, some, unwrap_or, ◌||◌, ◌∷◌, [], any,
  if◌then◌else◌, none, text_eq, ◌++◌, ltb, ◌+◌, ◌%◌, ◌^◌,
}

-- The cache on the disk, and the files of a snapshot (provider/src/models.rs, and `hash_files_sorted`
-- of provider/src/security.rs).

-- What `entry.metadata()` says of an entry, which does not follow links: a file with its length, a
-- link with the length that it leads to if it leads anywhere, something else, or nothing.
pub data Meta : Type 0 where
  is_file : ℕ → Meta
  is_symlink : Option ℕ → Meta
  is_other : Meta
  unreadable : Meta

pub record Entry : Type 0 where
  pub file_name : Text
  pub meta : Meta

-- A directory below `snapshots`: whether it is one, its time of change, whether a file of a name is
-- there, what can be read of it, and its entries, if it can be listed.
pub record Snapshot : Type 0 where
  pub is_dir : Bool
  pub modified : Option ℕ
  pub exists : Text → Bool
  pub read_to_string : Text → Option Text
  pub read_dir : Option (List Entry)

-- A directory of the cache, with the entries of its `snapshots`, if they can be listed.
pub record ModelDir : Type 0 where
  pub dir_name : Text
  pub snapshots : Option (List Snapshot)

-- The start of the epoch stands for an unknown time.
unfoldable pub modified_at : Snapshot → ℕ
modified_at s = unwrap_or (s.modified) 0

abbrev pub keep_latest : Snapshot → Option Snapshot → Option Snapshot
keep_latest s none = some s
keep_latest s (some latest) =
    if ltb (modified_at latest) (modified_at s) then some s else some latest

-- The loop over the entries, with the latest so far.
unfoldable pub latest_from : Option Snapshot → List Snapshot → Option Snapshot
unfolding modified_at
latest_from latest [] = latest
latest_from latest (s ∷ rest) = latest_from (if s.is_dir then keep_latest s latest else latest) rest

abbrev pub find_in : Option (List Snapshot) → Option Snapshot
find_in none = none
find_in (some snapshots) = latest_from none snapshots

unfoldable pub find_latest_snapshot : ModelDir → Option Snapshot
unfolding latest_from
find_latest_snapshot d = find_in (d.snapshots)

-- `s.ends_with(t)`
unfoldable ends_with : Text → Text → Bool
ends_with [] t = is_empty t
ends_with (c ∷ s) t = text_eq (c ∷ s) t || ends_with s t

unfoldable pub is_weight_file : Text → Bool
unfolding ends_with
is_weight_file name =
    ends_with name (codes ".safetensors")
    || (ends_with name (codes ".npz")
        || (ends_with name (codes ".bin") || text_eq name (codes "weights.npz")))

abbrev integrity_files : List Text
integrity_files =
    codes "config.json"
    ∷ codes "tokenizer.json"
    ∷ codes "tokenizer_config.json"
    ∷ codes "tokenizer.model"
    ∷ codes "generation_config.json"
    ∷ codes "chat_template.jinja"
    ∷ codes "quantize_config.json"
    ∷ []

unfoldable pub is_integrity_file : Text → Bool
unfolding is_weight_file
is_integrity_file name = is_weight_file name || any (text_eq name) integrity_files

-- The length of the file that an entry is or leads to.
unfoldable pub resolved_len : Meta → Option ℕ
resolved_len (is_file len) = some len
resolved_len (is_symlink target) = target
resolved_len is_other = none
resolved_len unreadable = none

-- An entry that was resolved adds its path, and its length if it is a weight file. The sum wraps.
abbrev pub add_resolved : Text → Option ℕ → ℕ × List Text → ℕ × List Text
add_resolved name none (total, paths) = (total, paths)
add_resolved name (some len) (total, paths) =
    (if is_weight_file name then (total + len) % 2 ^ 64 else total, paths ++ (name ∷ []))

unfoldable pub collect_from : List Entry → ℕ × List Text → ℕ × List Text
unfolding is_integrity_file resolved_len
collect_from [] sums = sums
collect_from (e ∷ entries) sums = collect_from entries (
    if is_integrity_file (e.file_name)
    then add_resolved (e.file_name) (resolved_len (e.meta)) sums
    else sums)

unfoldable pub collect_weight_files : Snapshot → ℕ × List Text
unfolding collect_from
collect_weight_files s = collect_from (unwrap_or (s.read_dir) []) (0, [])

module _ (sha256 : Text → Text) (hex : Text → Text) where
  -- The digests of the files, one behind the other, if each file can be read.
  unfoldable pub digests : (Text → Option Text) → List Text → Option Text
  digests read [] = some []
  digests read (path ∷ paths) = do
    content ← read path
    rest ← digests read paths
    some (sha256 content ++ rest)

  -- The files are hashed in parallel, and their digests combined in the order of their paths.
  unfoldable pub hash_files_sorted : (Text → Option Text) → List Text → Option Text
  unfolding digests sort text_le
  hash_files_sorted read paths = do all ← digests read (sort text_le paths); some (hex (sha256 all))
