-- ===== src/Update/Backup.antt =====
use d_inference.Prelude.{true, false, Bool, Option, some, none}
use d_inference.Update.Disk.{
  ◌>>=◌, ◌>>◌, Place, Io, copy, exists, remove_file, Name, pure, bin, ignore, backup, darkbloom,
  eigeninference_enclave, darkbloom_enclave, mlx_metallib,
}

-- The backups of the installed binaries, and the way back to them (provider/src/main.rs).
-- The backups of the four binaries, in the order in which the update makes them.
pub record Backups : Type 0 where
  pub darkbloom_backup : Option Place
  pub enclave_backup : Option Place
  pub swift_enclave_backup : Option Place
  pub metallib_backup : Option Place

module _ (refuses : Place → Bool) where
  -- The backup of a binary is beside it, with another extension.
  unfoldable pub backup_installed_binary : Name → Io (Option Place)
  unfolding exists remove_file copy
  backup_installed_binary name fs = elim (exists fs (bin name)) [
    | false ↦ pure none fs
    | true ↦
        (do
          ignore (remove_file refuses (backup name))
          copy refuses (bin name) (backup name)
          pure (some (backup name)))
          fs
  ]

  unfoldable restore_installed_binary : Place → Option Place → Io (Unit {0})
  unfolding copy remove_file
  restore_installed_binary path none = pure tt
  restore_installed_binary path (some saved) = do
    copy refuses saved path
    ignore (remove_file refuses saved)

  unfoldable remove_binary_backup : Option Place → Io (Unit {0})
  unfolding remove_file
  remove_binary_backup none = pure tt
  remove_binary_backup (some saved) = ignore (remove_file refuses saved)

  unfoldable pub restore_or_remove_installed_path : Place → Option Place → Io (Unit {0})
  unfolding restore_installed_binary remove_file
  restore_or_remove_installed_path path (some saved) = restore_installed_binary path (some saved)
  restore_or_remove_installed_path path none = ignore (remove_file refuses path)

  unfoldable pub back_up : Io Backups
  unfolding backup_installed_binary
  back_up = do
    first ← backup_installed_binary darkbloom
    second ← backup_installed_binary eigeninference_enclave
    third ← backup_installed_binary darkbloom_enclave
    fourth ← backup_installed_binary mlx_metallib
    pure (record {
      darkbloom_backup = first;
      enclave_backup = second;
      swift_enclave_backup = third;
      metallib_backup = fourth;
    })

  unfoldable pub restore : Backups → Io (Unit {0})
  unfolding restore_or_remove_installed_path
  restore b = do
    restore_or_remove_installed_path (bin darkbloom) (b.darkbloom_backup)
    restore_or_remove_installed_path (bin eigeninference_enclave) (b.enclave_backup)
    restore_or_remove_installed_path (bin darkbloom_enclave) (b.swift_enclave_backup)
    restore_or_remove_installed_path (bin mlx_metallib) (b.metallib_backup)

  unfoldable pub remove_backups : Backups → Io (Unit {0})
  unfolding remove_binary_backup
  remove_backups b = do
    remove_binary_backup (b.darkbloom_backup)
    remove_binary_backup (b.enclave_backup)
    remove_binary_backup (b.swift_enclave_backup)
    remove_binary_backup (b.metallib_backup)
