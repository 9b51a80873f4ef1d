-- ===== src/Update/Auto.antt =====
use d_inference.Prelude.{
  true, false, Option, Bool, Text, some, none, codes, if◌then◌else◌, not, is_empty, ◌||◌, ◌&&◌,
  text_eq,
}
use d_inference.Update.Install.{install_swift_update_bundle_at}
use d_inference.Update.Backup.{Backups, back_up, remove_backups, restore}
use d_inference.Update.Release.{is_newer_version, is_swift_release, release_string, version_of}
use d_inference.Json.{JsonApi}
use d_inference.Update.Disk.{
  ◌>>=◌, ◌>>◌, Io, Files, Place, bail, exists, rename, write, ignore, set_permissions, Name, pure,
  remove_file, root, archive, bin, darkbloom, eigeninference_enclave,
}

-- `auto_update_check_with_install_dir` (provider/src/main.rs).

-- What the coordinator and the download answer (nothing, if the request fails or has another status),
-- the archive program with whether it ran and succeeded, and the check of the older runtime.
pub record Outside (V : Type 0) : Type 0 where
  pub version_answer : Option V
  pub download : Text → Option Text
  pub tar : Io Bool
  pub verify_installed_update_runtime : Io (Unit {0})

-- The result of code whose failure is looked at.
abbrev pub attempted : Option (Unit {0}) × Files → Option Bool × Files
attempted (none, fs) = (some false, fs)
attempted (some done, fs) = (some true, fs)

abbrev pub attempt : Io (Unit {0}) → Io Bool
attempt m fs = attempted (m fs)

module _ (json : JsonApi) (sha256_hex : Text → Text) (display : Place → Text)
    (refuses : Place → Bool) (current_version : Text) (outside : Outside json.Value) where
  unfoldable executable : Name → Io (Unit {0})
  unfolding exists set_permissions
  executable name fs = elim (exists fs (bin name)) [
    | true ↦ set_permissions refuses (bin name) 493 fs
    | false ↦ pure tt fs
  ]

  -- The installation of a release of the older kind.
  unfoldable install_rust : Io Bool
  unfolding rename executable
  install_rust = do
    ignore (rename refuses (root darkbloom) (bin darkbloom))
    ignore (rename refuses (root eigeninference_enclave) (bin eigeninference_enclave))
    executable darkbloom
    executable eigeninference_enclave
    attempt (outside.verify_installed_update_runtime)

  unfoldable pub install_release : json.Value → Io Bool
  unfolding is_swift_release install_swift_update_bundle_at install_rust
  install_release info =
      if is_swift_release json info
      then attempt (install_swift_update_bundle_at json sha256_hex display refuses info)
      else install_rust

  abbrev pub settle : Backups → Bool → Io Bool
  settle backups true = do remove_backups refuses backups; pure true
  settle backups false = do restore refuses backups; bail

  abbrev unpacked : json.Value → Backups → Bool → Io Bool
  unpacked info backups false = bail
  unpacked info backups true = do
    installed ← install_release info
    ignore (remove_file refuses archive)
    settle backups installed

  -- From the downloaded bytes on.
  unfoldable pub install_update : json.Value → Text → Io Bool
  unfolding write back_up install_release remove_file remove_backups restore
  install_update info bytes = do
    write refuses archive bytes
    backups ← back_up refuses
    succeeded ← outside.tar
    unpacked info backups succeeded

  abbrev downloaded : json.Value → Option Text → Io Bool
  downloaded info none = bail
  downloaded info (some bytes) =
      let expected_hash = release_string json info (codes "bundle_hash") in
      if not (is_empty expected_hash) && not (text_eq (sha256_hex bytes) expected_hash)
      then bail
      else install_update info bytes

  abbrev answered : Option json.Value → Io Bool
  answered none = bail
  answered (some info) =
      let latest = version_of json info in
      let download_url = release_string json info (codes "download_url") in
      if not (is_newer_version current_version latest) || is_empty download_url
      then pure false
      else downloaded info (outside.download download_url)

  unfoldable pub auto_update_check_with_install_dir : Io Bool
  unfolding is_newer_version release_string version_of install_update
  auto_update_check_with_install_dir = answered (outside.version_answer)
