-- ===== src/Update/Examples.antt =====
use d_inference.Update.Disk.{
  read, Files, Io, Place, bin, set, darkbloom, eigeninference_enclave, backup, file, pure,
  darkbloom_enclave, place_index, plist, mlx_metallib, app,
}
use d_inference.Json.{JsonApi}
use d_inference.Update.Auto.{auto_update_check_with_install_dir, Outside}
use d_inference.Prelude.{
  Text, Bool, codes, none, ℕ, Option, false, some, ◌++◌, decimal, length, suc, true, if◌then◌else◌,
  ◌≡◌, text_eq, zero, refl,
}
use d_inference.Launchd.Cut.{cut}

-- Updates of a small installation (provider/src/main.rs).

-- Values are texts, and an object is a text of its fields, each as a key, a colon, a value and a
-- newline.
unfoldable field_loop : ℕ → Text → Text → Option Text
field_loop zero s key = none
field_loop (suc fuel) s key = elim (cut (codes "\n") s) [
  | none ↦ none
  | some (line, rest) ↦ elim (cut (codes ":") line) [
    | none ↦ none
    | some (name, v) ↦ if text_eq name key then some v else field_loop fuel rest key
  ]
]

unfoldable pub field_of : Text → Text → Option Text
unfolding field_loop cut
field_of v key = field_loop (length v) v key

abbrev pub lines_json : JsonApi
lines_json = record {
  Value = Text;
  from_str = λ s. some s;
  to_string = λ v. v;
  get = field_of;
  as_bool = λ v. none;
  as_u64 = λ v. none;
  as_str = λ v. some v;
  as_array = λ v. none;
}

abbrev pub no_refusal : Place → Bool
no_refusal p = false

-- The hash of a text is the text.
abbrev pub plain_hash : Text → Text
plain_hash t = t

abbrev pub show_place : Place → Text
show_place p = codes "p" ++ decimal (place_index p)

abbrev pub swift_info : Text
swift_info =
    codes "version:1.2.0\ndownload_url:u\nbackend:mlx-swift\nbinary_hash:new\nmetallib_hash:lib\n"

abbrev pub nothing_there : Files
nothing_there p = none

abbrev old_helper_only : Files
old_helper_only = set (bin darkbloom) (some (file (codes "old") 493)) (
    set (bin eigeninference_enclave) (some (file (codes "helper") 493))
      (set plist (some (file (codes "<dict/>") 420)) nothing_there))

-- The archive of the release.
abbrev pub with_lib : Files → Files
with_lib = set (bin mlx_metallib) (some (file (codes "lib") 420))

abbrev pub with_enclave : Files → Files
with_enclave fs = set (bin darkbloom_enclave) (some (file (codes "enclave") 420)) (with_lib fs)

abbrev pub unpack : Io Bool
unpack fs = (some true, set (bin darkbloom) (some (file (codes "new") 420)) (with_enclave fs))

abbrev outside_with : Io Bool → Outside Text
outside_with tar = record {
  version_answer = some swift_info;
  download = λ url. some (codes "bytes");
  tar = tar;
  verify_installed_update_runtime = pure tt;
}

abbrev updated : Io Bool → Files → Option Bool × Files
unfolding auto_update_check_with_install_dir
updated tar =
    auto_update_check_with_install_dir lines_json plain_hash show_place no_refusal (codes "1.1.9")
      (outside_with tar)

-- A launchd file without arguments makes the first migration fail behind the link for the helper's
-- old name. The backup of the helper is then written through that link, and the place it leads to is
-- removed, as it was not there before: the helper is lost.
helper_kept_before : read old_helper_only (bin eigeninference_enclave) ≡ some (codes "helper", 493)
unfolding read
helper_kept_before = refl

helper_update_fails : (updated unpack old_helper_only).0 ≡ none
unfolding updated field_of
helper_update_fails = refl

helper_lost : read ((updated unpack old_helper_only).1) (bin eigeninference_enclave) ≡ none
unfolding updated read field_of
helper_lost = refl

helper_backup_lost :
    read ((updated unpack old_helper_only).1) (backup eigeninference_enclave) ≡ none
unfolding updated read field_of
helper_backup_lost = refl

-- An archive that fails to unpack leaves what it has unpacked in place of the old binary.
abbrev broken_unpack : Io Bool
broken_unpack fs = (some false, set (bin darkbloom) (some (file (codes "part") 420)) fs)

unpacking_failed : (updated broken_unpack old_helper_only).0 ≡ none
unfolding updated field_of
unpacking_failed = refl

part_left :
    read ((updated broken_unpack old_helper_only).1) (bin darkbloom) ≡ some (codes "part", 420)
unfolding updated read field_of
part_left = refl

-- A bundled application takes the place of the binaries that were checked.
abbrev unpack_app : Io Bool
unpack_app fs = (some true, set (app darkbloom) (some (file (codes "other") 493)) ((unpack fs).1))

app_accepted : (updated unpack_app nothing_there).0 ≡ some true
unfolding updated field_of
app_accepted = refl

app_runs : read ((updated unpack_app nothing_there).1) (bin darkbloom) ≡ some (codes "other", 493)
unfolding updated read field_of
app_runs = refl
