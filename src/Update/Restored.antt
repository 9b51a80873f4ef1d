-- ===== src/Update/Restored.antt =====
use d_inference.Update.Backup.{Backups, back_up, restore, restore_or_remove_installed_path}
use d_inference.Update.Effects.{
  IsUnlinked, as_file, remove_file-Empty, copy_unlinked, read_as_file, set_here, set_elsewhere,
}
use d_inference.Update.Saved.{
  IsSaved, IsApart, SameOutside, backup_installed_binary-IsSaved, SameOutside-SameBut,
  SameOutside-then,
}
use d_inference.Prelude.{Bool, Option, ◌≡◌, false, ◌==◌, ◌∙◌, some, ap, refl, arith, subst, sym}
use d_inference.Update.Disk.{
  Files, Name, Place, backup, place_index, bin, darkbloom, eigeninference_enclave,
  darkbloom_enclave, mlx_metallib, read, set, file, and_then, ignore, remove_file,
}

-- The backups that were made are the way back (provider/src/main.rs).

-- The backups of all four binaries.
pub record AreSaved (fs gs : Files) (b : Backups) : Type 0 where
  darkbloom_saved : IsSaved fs gs darkbloom (b.darkbloom_backup)
  enclave_saved : IsSaved fs gs eigeninference_enclave (b.enclave_backup)
  swift_enclave_saved : IsSaved fs gs darkbloom_enclave (b.swift_enclave_backup)
  metallib_saved : IsSaved fs gs mlx_metallib (b.metallib_backup)

IsSaved-kept :
    (fs gs hs : Files) (n : Name) (o : Option Place)
    → hs (backup n) ≡ gs (backup n)
    → IsSaved fs gs n o
    → IsSaved fs hs n o
IsSaved-kept fs gs hs n o e (IsSaved.absent r) = IsSaved.absent r
IsSaved-kept fs gs hs n o e (IsSaved.saved content mode r h) = IsSaved.saved content mode r (e ∙ h)

-- Everything but the binary of that name and its backup is left as it is.
abbrev RestoredOnly : Name → Files → Files → Type 0
RestoredOnly n hs ks =
    (q : Place)
    → (place_index (bin n) == place_index q) ≡ false
    → (place_index (backup n) == place_index q) ≡ false
    → ks q ≡ hs q

module _ (refuses : Place → Bool) (writable : (p : Place) → refuses p ≡ false) where
  pub back_up-AreSaved :
      (fs f0 : Files)
      → IsApart fs
      → SameOutside fs f0
      → (b : Backups) × (gs : Files) × (back_up refuses f0 ≡ (some b, gs))
        × AreSaved fs gs b
        × SameOutside fs gs
  unfolding back_up
  back_up-AreSaved fs f0 apart same0 =
      let (o1, f1, e1, s1, k1) =
        backup_installed_binary-IsSaved refuses writable darkbloom fs f0 apart same0 in
      let same1 = SameOutside-then fs f0 f1 same0 (SameOutside-SameBut darkbloom f0 f1 k1) in
      let (o2, f2, e2, s2, k2) =
        backup_installed_binary-IsSaved refuses writable eigeninference_enclave fs f1 apart same1 in
      let same2 =
        SameOutside-then fs f1 f2 same1 (SameOutside-SameBut eigeninference_enclave f1 f2 k2) in
      let (o3, f3, e3, s3, k3) =
        backup_installed_binary-IsSaved refuses writable darkbloom_enclave fs f2 apart same2 in
      let same3 =
        SameOutside-then fs f2 f3 same2 (SameOutside-SameBut darkbloom_enclave f2 f3 k3) in
      let (o4, f4, e4, s4, k4) =
        backup_installed_binary-IsSaved refuses writable mlx_metallib fs f3 apart same3 in
      let same4 = SameOutside-then fs f3 f4 same3 (SameOutside-SameBut mlx_metallib f3 f4 k4) in
      (
        record {
          darkbloom_backup = o1;
          enclave_backup = o2;
          swift_enclave_backup = o3;
          metallib_backup = o4;
        },
        f4,
        rw e1 rw e2 rw e3 rw e4 refl,
        record {
          darkbloom_saved =
              IsSaved-kept fs f1 f4 darkbloom o1
                (k4 (backup darkbloom) refl
                  ∙ k3 (backup darkbloom) refl
                  ∙ k2 (backup darkbloom) refl)
                s1;
          enclave_saved =
              IsSaved-kept fs f2 f4 eigeninference_enclave o2
                (k4 (backup eigeninference_enclave) refl ∙ k3 (backup eigeninference_enclave) refl)
                s2;
          swift_enclave_saved =
              IsSaved-kept fs f3 f4 darkbloom_enclave o3 (k4 (backup darkbloom_enclave) refl) s3;
          metallib_saved = s4;
        },
        same4,
      )

  -- One binary is put back, or removed if there was none.
  restore_or_remove_installed_path-IsSaved :
      (n : Name) (o : Option Place) (fs gs hs : Files)
      → IsSaved fs gs n o
      → hs (backup n) ≡ gs (backup n)
      → IsUnlinked (hs (bin n))
      → (ks : Files) × (restore_or_remove_installed_path refuses (bin n) o hs ≡ (some tt, ks))
        × (ks (bin n) ≡ as_file (read fs (bin n)))
        × RestoredOnly n hs ks
  unfolding restore_or_remove_installed_path
  restore_or_remove_installed_path-IsSaved n o fs gs hs (IsSaved.absent r) e h =
      let (done, removed, empty, others) = remove_file-Empty refuses writable (bin n) hs in
      (done, removed, rw r empty, λ q d d'. others q d)
  restore_or_remove_installed_path-IsSaved n o fs gs hs (IsSaved.saved content mode r s) e h =
      let put = set (bin n) (some (file content mode)) hs in
      let (done, removed, empty, others) = remove_file-Empty refuses writable (backup n) put in
      (
        done,
        ap (and_then (λ (ok : Unit {0}). ignore (remove_file refuses (backup n)))) (
              copy_unlinked refuses writable (backup n) (bin n) hs content mode
                (read_as_file hs (backup n) (some (content, mode)) (e ∙ s)) h)
            ∙ removed,
        others (bin n) (ground arith) ∙ set_here (bin n) (some (file content mode)) hs ∙ rw r refl,
        λ q d d'. others q d' ∙ set_elsewhere (bin n) q (some (file content mode)) hs d,
      )

  -- What the backups were made of is shown again at every installed path, if since then the backups
  -- were left alone and no installed path became a link.
  pub restore-AreSaved :
      (fs gs hs : Files) (b : Backups)
      → AreSaved fs gs b
      → ((n : Name) → hs (backup n) ≡ gs (backup n))
      → ((n : Name) → IsUnlinked (hs (bin n)))
      → (ks : Files) × (restore refuses b hs ≡ (some tt, ks))
        × ((n : Name) → read ks (bin n) ≡ read fs (bin n))
  unfolding restore
  restore-AreSaved fs gs hs b s kept plain =
      let (f1, e1, r1, k1) =
        restore_or_remove_installed_path-IsSaved darkbloom (b.darkbloom_backup) fs gs hs
          (s.darkbloom_saved) (kept darkbloom) (plain darkbloom) in
      let (f2, e2, r2, k2) =
        restore_or_remove_installed_path-IsSaved eigeninference_enclave (b.enclave_backup) fs gs f1
          (s.enclave_saved)
          (k1 (backup eigeninference_enclave) refl refl ∙ kept eigeninference_enclave)
          (subst IsUnlinked (sym (k1 (bin eigeninference_enclave) refl refl))
            (plain eigeninference_enclave)) in
      let (f3, e3, r3, k3) =
        restore_or_remove_installed_path-IsSaved darkbloom_enclave (b.swift_enclave_backup) fs gs f2
          (s.swift_enclave_saved)
          (k2 (backup darkbloom_enclave) refl refl
            ∙ k1 (backup darkbloom_enclave) refl refl
            ∙ kept darkbloom_enclave)
          (subst IsUnlinked
            (sym (k2 (bin darkbloom_enclave) refl refl ∙ k1 (bin darkbloom_enclave) refl refl))
            (plain darkbloom_enclave)) in
      let (f4, e4, r4, k4) =
        restore_or_remove_installed_path-IsSaved mlx_metallib (b.metallib_backup) fs gs f3
          (s.metallib_saved)
          (k3 (backup mlx_metallib) refl refl
            ∙ k2 (backup mlx_metallib) refl refl
            ∙ k1 (backup mlx_metallib) refl refl
            ∙ kept mlx_metallib)
          (subst IsUnlinked
            (sym (
              k3 (bin mlx_metallib) refl refl
              ∙ k2 (bin mlx_metallib) refl refl
              ∙ k1 (bin mlx_metallib) refl refl))
            (plain mlx_metallib)) in
      (
        f4,
        rw e1 rw e2 rw e3 e4,
        shows f4
            (k4 (bin darkbloom) refl refl
              ∙ k3 (bin darkbloom) refl refl
              ∙ k2 (bin darkbloom) refl refl
              ∙ r1)
            (k4 (bin eigeninference_enclave) refl refl
              ∙ k3 (bin eigeninference_enclave) refl refl
              ∙ r2)
            (k4 (bin darkbloom_enclave) refl refl ∙ r3) (r4),
      )
    where
      shows :
          (ks : Files)
          → ks (bin darkbloom) ≡ as_file (read fs (bin darkbloom))
          → ks (bin eigeninference_enclave) ≡ as_file (read fs (bin eigeninference_enclave))
          → ks (bin darkbloom_enclave) ≡ as_file (read fs (bin darkbloom_enclave))
          → ks (bin mlx_metallib) ≡ as_file (read fs (bin mlx_metallib))
          → (n : Name) → read ks (bin n) ≡ read fs (bin n)
      shows ks a b c d darkbloom = read_as_file ks (bin darkbloom) (read fs (bin darkbloom)) a
      shows ks a b c d eigeninference_enclave =
          read_as_file ks (bin eigeninference_enclave) (read fs (bin eigeninference_enclave)) b
      shows ks a b c d darkbloom_enclave =
          read_as_file ks (bin darkbloom_enclave) (read fs (bin darkbloom_enclave)) c
      shows ks a b c d mlx_metallib =
          read_as_file ks (bin mlx_metallib) (read fs (bin mlx_metallib)) d
