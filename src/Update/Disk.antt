-- ===== src/Update/Disk.antt =====
use d_inference.Prelude.{
  Bool, Option, Text, none, some, false, if◌then◌else◌, ℕ, suc, true, ◌+◌, ◌==◌, zero,
}

-- The files that the update touches, and the calls of `std::fs` that it makes on them.

-- The names that the release and the older one install.
pub data Name : Type 0 where
  darkbloom eigeninference_enclave darkbloom_enclave mlx_metallib : Name

-- In the installation directory, its `bin`, the backups of `bin`, and the bundled application; the
-- launchd file and its sibling; and the downloaded archive.
pub data Place : Type 0 where
  root bin backup app : Name → Place
  plist plist_tmp archive : Place

abbrev pub name_index : Name → ℕ
name_index darkbloom = 0
name_index eigeninference_enclave = 1
name_index darkbloom_enclave = 2
name_index mlx_metallib = 3

abbrev pub place_index : Place → ℕ
place_index (root n) = name_index n
place_index (bin n) = 4 + name_index n
place_index (backup n) = 8 + name_index n
place_index (app n) = 12 + name_index n
place_index plist = 16
place_index plist_tmp = 17
place_index archive = 18

-- A file with its content and its mode, or a symbolic link.
pub data Node : Type 0 where
  file : Text → ℕ → Node
  link : Place → Node

abbrev pub Files : Type 0
Files = Place → Option Node

abbrev pub set : Place → Option Node → Files → Files
set p node fs q = if place_index p == place_index q then node else fs q

-- The place that a path leads to when links are followed, `rounds` of them at most.
unfoldable pub follow : ℕ → Files → Place → Place
follow zero fs p = p
follow (suc rounds) fs p = elim (fs p) [
  | none ↦ p
  | some node ↦ elim node [ file content mode ↦ p | link target ↦ follow rounds fs target ]
]

-- The system gives up behind 32 links.
abbrev pub followed : Files → Place → Place
followed = follow 32

abbrev pub file_of : Option Node → Option (Text × ℕ)
file_of none = none
file_of (some (file content mode)) = some (content, mode)
file_of (some (link target)) = none

-- The content and mode that a path shows.
unfoldable pub read : Files → Place → Option (Text × ℕ)
unfolding follow
read fs p = file_of (fs (followed fs p))

abbrev is_some {ℓ} : {A : Type ℓ} → Option A → Bool
is_some none = false
is_some (some a) = true

-- `path.exists()`
unfoldable pub exists : Files → Place → Bool
unfolding read
exists fs p = is_some (read fs p)

-- Code that may fail, and the files as it leaves them.
abbrev pub Io : Type 0 → Type 0
Io A = Files → Option A × Files

abbrev pub and_then : {A B : Type 0} → (A → Io B) → Option A × Files → Option B × Files
and_then k (none, fs) = (none, fs)
and_then k (some a, fs) = k a fs

infixl 5 ◌>>=◌ ◌>>◌
abbrev pub ◌>>=◌ : {A B : Type 0} → Io A → (A → Io B) → Io B
(m >>= k) fs = and_then k (m fs)

abbrev pub ◌>>◌ : {B : Type 0} → Io (Unit {0}) → Io B → Io B
m >> k = m >>= λ _. k

abbrev pub pure : {A : Type 0} → A → Io A
pure a fs = (some a, fs)

abbrev pub bail : {A : Type 0} → Io A
bail fs = (none, fs)

-- `let _ = …` and `.ok()`
abbrev pub ignored : Option (Unit {0}) × Files → Option (Unit {0}) × Files
ignored (result, fs) = (some tt, fs)

abbrev pub ignore : Io (Unit {0}) → Io (Unit {0})
ignore m fs = ignored (m fs)

-- `refuses` says which places the system does not let the program change.
module _ (refuses : Place → Bool) where
  -- Puts a node at a place, or fails and changes nothing.
  unfoldable pub change : Place → Option Node → Io (Unit {0})
  change p node fs = elim (refuses p) [ true ↦ (none, fs) | false ↦ (some tt, set p node fs) ]

  abbrev remove_found : Option Node → Place → Io (Unit {0})
  remove_found none p = bail
  remove_found (some node) p = change p none

  unfoldable pub remove_file : Place → Io (Unit {0})
  unfolding change
  remove_file p fs = remove_found (fs p) p fs

  abbrev write_found : Option (Text × ℕ) → Place → Io (Unit {0})
  write_found none p = bail
  write_found (some (content, mode)) p = change p (some (file content mode))

  -- The content and the mode go to where the destination leads.
  unfoldable pub copy : Place → Place → Io (Unit {0})
  unfolding change read
  copy source destination fs = write_found (read fs source) (followed fs destination) fs

  abbrev rename_found : Option Node → Place → Place → Io (Unit {0})
  rename_found none source destination = bail
  rename_found (some node) source destination = change source none >> change destination (some node)

  unfoldable pub rename : Place → Place → Io (Unit {0})
  unfolding change
  rename source destination fs =
      if refuses destination then bail fs else rename_found (fs source) source destination fs

  abbrev mode_found : Option (Text × ℕ) → ℕ → Place → Io (Unit {0})
  mode_found none mode p = bail
  mode_found (some (content, old)) mode p = change p (some (file content mode))

  unfoldable pub set_permissions : Place → ℕ → Io (Unit {0})
  unfolding change read
  set_permissions p mode fs = mode_found (read fs p) mode (followed fs p) fs

  abbrev link_at : Option Node → Place → Place → Io (Unit {0})
  link_at none target p = change p (some (link target))
  link_at (some node) target p = bail

  unfoldable pub symlink : Place → Place → Io (Unit {0})
  unfolding change
  symlink target p fs = link_at (fs p) target p fs

  abbrev pub mode_of : Option (Text × ℕ) → ℕ
  mode_of none = 420
  mode_of (some (content, mode)) = mode

  -- A new file has the mode rw-r--r--.
  unfoldable pub write : Place → Text → Io (Unit {0})
  unfolding change read
  write p content fs = change (followed fs p) (some (file content (mode_of (read fs p)))) fs
