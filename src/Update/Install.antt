-- ===== src/Update/Install.antt =====
use d_inference.Prelude.{
  true, false, Text, Bool, Option, if◌then◌else◌, ℕ, is_empty, some, true, false, none, text_eq,
  ◌&&◌, not, codes,
}
use d_inference.Launchd.Plist.{migrated}
use d_inference.Update.Release.{release_string}
use d_inference.Update.Disk.{
  ◌>>=◌, ◌>>◌, Place, Io, exists, read, set_permissions, Files, app, bail, plist, pure, remove_file,
  rename, write, Name, darkbloom, root, symlink, eigeninference_enclave, ignore, bin,
  darkbloom_enclave, mlx_metallib, plist_tmp,
}
use d_inference.Json.{JsonApi}

-- `install_swift_update_bundle_at` and `rewrite_launchd_plist_for_swift` (provider/src/main.rs), the
-- installation of an unpacked release.
module _ (json : JsonApi) (sha256_hex : Text → Text) (display : Place → Text)
    (refuses : Place → Bool) where
  abbrev hash_found : Option (Text × ℕ) → Option Text
  hash_found none = none
  hash_found (some (content, mode)) = some (sha256_hex content)

  -- `security::hash_file`
  unfoldable hash_file : Files → Place → Option Text
  unfolding read
  hash_file fs p = hash_found (read fs p)

  abbrev compare_hash : Option Text → Text → Io (Unit {0})
  compare_hash none expected = bail
  compare_hash (some actual) expected = if text_eq actual expected then pure tt else bail

  unfoldable verify_update_file_hash : Place → Text → Io (Unit {0})
  unfolding hash_file
  verify_update_file_hash path expected fs =
      if is_empty expected then pure tt fs else compare_hash (hash_file fs path) expected fs

  -- `bail!` unless the condition holds
  abbrev ensure : Bool → Io (Unit {0})
  ensure true = pure tt
  ensure false = bail

  abbrev pub when : Bool → Io (Unit {0}) → Io (Unit {0})
  when true m = m
  when false m = pure tt

  -- A file that was unpacked at the root moves to `bin`; a failure to move it is ignored.
  unfoldable stage : Name → Io (Unit {0})
  unfolding exists rename
  stage name fs = when (exists fs (root name)) (ignore (rename refuses (root name) (bin name))) fs

  unfoldable stage_legacy_helper : Io (Unit {0})
  unfolding exists rename
  stage_legacy_helper fs =
      when (exists fs (root eigeninference_enclave) && not (exists fs (bin darkbloom_enclave)))
        (ignore (rename refuses (root eigeninference_enclave) (bin darkbloom_enclave))) fs

  unfoldable pub stage_all : Io (Unit {0})
  unfolding stage stage_legacy_helper
  stage_all = do stage darkbloom; stage darkbloom_enclave; stage mlx_metallib; stage_legacy_helper

  unfoldable ensure_exists : Place → Io (Unit {0})
  unfolding exists
  ensure_exists p fs = ensure (exists fs p) fs

  -- The checks of the unpacked files and of the release's hashes.
  unfoldable pub verify_bundle : json.Value → Io (Unit {0})
  unfolding ensure_exists release_string verify_update_file_hash
  verify_bundle info = do
    ensure_exists (bin darkbloom)
    ensure_exists (bin darkbloom_enclave)
    ensure_exists (bin mlx_metallib)
    ensure (not (is_empty (release_string json info (codes "binary_hash"))))
    ensure (not (is_empty (release_string json info (codes "metallib_hash"))))
    verify_update_file_hash (bin darkbloom) (release_string json info (codes "binary_hash"))
    verify_update_file_hash (bin mlx_metallib) (release_string json info (codes "metallib_hash"))

  -- The modes of the binaries, and the link for the helper's old name.
  unfoldable pub link_helper : Io (Unit {0})
  unfolding set_permissions remove_file symlink
  link_helper = do
    set_permissions refuses (bin darkbloom) 493
    set_permissions refuses (bin darkbloom_enclave) 493
    ignore (remove_file refuses (bin eigeninference_enclave))
    symlink refuses (bin darkbloom_enclave) (bin eigeninference_enclave)

  unfoldable link_app : Name → Io (Unit {0})
  unfolding exists remove_file symlink
  link_app name fs =
      when (exists fs (app name))
        (do ignore (remove_file refuses (bin name)); symlink refuses (app name) (bin name)) fs

  -- The binary that launchd is to start: in the bundled application, if there is one.
  abbrev choose_app : Bool → Io Place
  choose_app true = do
    link_app darkbloom
    link_app darkbloom_enclave
    link_app mlx_metallib
    pure (app darkbloom)
  choose_app false = pure (bin darkbloom)

  unfoldable pub runtime_binary_path : Io Place
  unfolding exists link_app
  runtime_binary_path fs = choose_app (exists fs (app darkbloom)) fs

  abbrev write_plist : Option Text → Io (Unit {0})
  write_plist none = bail
  write_plist (some text) = do write refuses plist_tmp text; rename refuses plist_tmp plist

  abbrev migrate_found : Option (Text × ℕ) → Place → Io (Unit {0})
  migrate_found none binary = bail
  migrate_found (some (original, mode)) binary = write_plist (migrated (display binary) original)

  unfoldable pub rewrite_launchd_plist_for_swift : Place → Io (Unit {0})
  unfolding read write rename migrated
  rewrite_launchd_plist_for_swift binary fs = migrate_found (read fs plist) binary fs

  unfoldable pub migrate_plist : Place → Io (Unit {0})
  unfolding exists rewrite_launchd_plist_for_swift
  migrate_plist binary fs = when (exists fs plist) (rewrite_launchd_plist_for_swift binary) fs

  -- With the launchd file at its default place.
  unfoldable pub install_swift_update_bundle_at : json.Value → Io (Unit {0})
  unfolding stage_all verify_bundle link_helper runtime_binary_path migrate_plist
  install_swift_update_bundle_at info = do
    stage_all
    verify_bundle info
    link_helper
    binary ← runtime_binary_path
    migrate_plist binary
