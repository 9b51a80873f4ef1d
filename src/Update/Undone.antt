-- ===== src/Update/Undone.antt =====
use d_inference.Prelude.{
  Text, Bool, ◌≡◌, false, some, true, none, arith, is_empty, codes, ◌∙◌, [], subst, sym, ◌⊎◌, ap,
  not, ◌&&◌, text_eq, inl, inr, text_eq_refl, refl,
}
use d_inference.Update.Install.{stage_all, install_swift_update_bundle_at}
use d_inference.Update.Verified.{IsVerified}
use d_inference.Update.Release.{is_newer_version, version_of, release_string, is_swift_release}
use d_inference.Update.Rejected.{IsPlain, install_swift_update_bundle_at-rejected}
use d_inference.Update.Restored.{AreSaved, back_up-AreSaved, restore-AreSaved}
use d_inference.Update.Saved.{IsApart, SameOutside, SameOutside-archive, name_index_bound}
use d_inference.Update.Backup.{Backups}
use d_inference.Update.Effects.{IsUnlinked, remove_file-Empty, follow_unlinked, change_writable}
use d_inference.Update.Auto.{
  Outside, install_update, install_release, auto_update_check_with_install_dir, settle, attempted,
}
use d_inference.Update.Disk.{
  bail, change, and_then, Place, Files, Io, write, Name, backup, archive, read, bin, file, ignore,
  remove_file, ◌>>◌, mode_of, set, root,
}
use d_inference.Json.{JsonApi}

-- The update restores what it replaced (provider/src/main.rs).

module _ (json : JsonApi) (sha256_hex : Text → Text) (display : Place → Text)
    (refuses : Place → Bool) (current_version : Text) (outside : Outside json.Value)
    (writable : (p : Place) → refuses p ≡ false) where
  -- Every installed path shows what it showed before.
  abbrev pub ShowsSame : Files → Files → Type 0
  ShowsSame fs gs = (n : Name) → read gs (bin n) ≡ read fs (bin n)

  -- Where the places of the binaries are no links, the archive puts no links there, and it leaves the
  -- backups alone.
  abbrev Unpacks : Io Bool → Type 0
  Unpacks tar =
      (gs : Files) → IsPlain gs gs → (hs : Files) × (tar gs ≡ (some true, hs)) × IsPlain gs hs

  -- Places that are no links are still none when the backups have been made.
  SameOutside-IsPlain : (fs gs : Files) → IsPlain fs fs → SameOutside fs gs → IsPlain gs gs
  SameOutside-IsPlain fs gs plain same = record {
    backups_kept = λ n. refl;
    plain_bins = λ n. subst IsUnlinked (sym (same (bin n) refl)) (plain.plain_bins n);
    plain_roots = λ n. subst IsUnlinked (sym (same (root n) refl)) (plain.plain_roots n);
  }

  written :
      (fs : Files) (bytes : Text)
      → IsUnlinked (fs archive)
      → (f0 : Files) × (write refuses archive bytes fs ≡ (some tt, f0)) × SameOutside fs f0
  unfolding write
  written fs bytes h =
      let node = some (file bytes (mode_of refuses (read fs archive))) in
      (
        set archive node fs,
        ap (λ p. change refuses p node fs) (follow_unlinked 32 fs archive h)
            ∙ change_writable refuses writable archive node fs,
        SameOutside-archive fs node,
      )

  -- Once the backups are made, a failed installation is undone, if it left the backups alone.
  settle-restores :
      (fs saved ks : Files) (b : Backups)
      → AreSaved fs saved b
      → IsPlain saved ks
      → (rs : Files) × ((ignore (remove_file refuses archive)
              >> settle json sha256_hex display refuses current_version outside b false)
            ks
          ≡ (none, rs))
        × ShowsSame fs rs
  settle-restores fs saved ks b s plain =
      let (done, removed, empty, others) = remove_file-Empty refuses writable archive ks in
      let (rs, restored, shown) =
        restore-AreSaved refuses writable fs saved done b s
          (λ n. others (backup n) (ground (arith, name_index_bound n)) ∙ plain.backups_kept n)
          (λ n.
            subst IsUnlinked (sym (others (bin n) (ground (arith, name_index_bound n))))
              (plain.plain_bins n)) in
      (
        rs,
        ap
              (and_then (λ (ok : Unit {0}).
                settle json sha256_hex display refuses current_version outside b false))
              removed
            ∙ ap (and_then (λ (ok : Unit {0}). bail {A = Bool})) restored,
        shown,
      )

  install_update-restores :
      (info : json.Value) (bytes : Text) (fs : Files)
      → IsApart fs
      → IsPlain fs fs
      → IsUnlinked (fs archive)
      → Unpacks (outside.tar)
      → ((gs hs : Files)
          → SameOutside fs gs
          → outside.tar gs ≡ (some true, hs)
          → IsPlain gs hs
          → (ks : Files) × (install_release json sha256_hex display refuses current_version outside
                info hs
              ≡ (some false, ks))
            × IsPlain gs ks)
      → (rs : Files) × (install_update json sha256_hex display refuses current_version outside info
            bytes fs
          ≡ (none, rs))
        × ShowsSame fs rs
  unfolding install_update
  install_update-restores info bytes fs apart at_first unlinked_archive unpacks fails =
      let (f0, e0, same) = written fs bytes unlinked_archive in
      let (b, gs, e1, s, same_saved) = back_up-AreSaved refuses writable fs f0 apart same in
      let (hs, e2, plain) = unpacks gs (SameOutside-IsPlain fs gs at_first same_saved) in
      let (ks, e3, p) = fails gs hs same_saved e2 plain in
      let (rs, e4, shown) = settle-restores fs gs ks b s p in
      (rs, rw e0 rw e1 rw e2 rw e3 e4, shown)

  not_installed :
      (info : json.Value) (hs gs : Files)
      → is_swift_release json info ≡ true
      → install_swift_update_bundle_at json sha256_hex display refuses info hs ≡ (none, gs)
      → install_release json sha256_hex display refuses current_version outside info hs
        ≡ (some false, gs)
  unfolding install_release
  not_installed info hs gs swift e = rw swift (ap attempted e)

  hash_fine :
      (actual expected : Text)
      → (expected ≡ []) ⊎ (actual ≡ expected)
      → (not (is_empty expected) && not (text_eq actual expected)) ≡ false
  hash_fine actual expected (inl e) = rw e refl
  hash_fine actual expected (inr e) = rw e rw (text_eq_refl expected) (never (is_empty expected))
    where
      never : (b : Bool) → (not b && false) ≡ false
      never true = refl
      never false = refl

  -- Nothing stands between the answer of the coordinator and the installation.
  reaches_install :
      (fs : Files) (info : json.Value) (bytes : Text)
      → outside.version_answer ≡ some info
      → is_newer_version current_version (version_of json info) ≡ true
      → is_empty (release_string json info (codes "download_url")) ≡ false
      → outside.download (release_string json info (codes "download_url")) ≡ some bytes
      → (not (is_empty (release_string json info (codes "bundle_hash")))
          && not (text_eq (sha256_hex bytes) (release_string json info (codes "bundle_hash"))))
        ≡ false
      → auto_update_check_with_install_dir json sha256_hex display refuses current_version outside
          fs
        ≡ install_update json sha256_hex display refuses current_version outside info bytes fs
  unfolding auto_update_check_with_install_dir
  reaches_install fs info bytes answer newer url download hash =
      rw answer rw newer rw url rw download rw hash refl

  -- The update of a Swift release that is newer, has a download address, is downloaded with the hash
  -- that it names, if it names one, and unpacks, fails if its unpacked files do not verify, and every
  -- installed path then shows what it showed before: if the system refuses no change, the installed
  -- paths, their sources and the archive's place are no links, no link leads to the update's own
  -- places, and the archive unpacks to files and leaves the backups alone.
  pub auto_update_check_with_install_dir-ShowsSame :
      (fs : Files) (info : json.Value) (bytes : Text)
      → IsApart fs
      → IsPlain fs fs
      → IsUnlinked (fs archive)
      → outside.version_answer ≡ some info
      → is_newer_version current_version (version_of json info) ≡ true
      → is_empty (release_string json info (codes "download_url")) ≡ false
      → outside.download (release_string json info (codes "download_url")) ≡ some bytes
      → (release_string json info (codes "bundle_hash") ≡ [])
        ⊎ (sha256_hex bytes ≡ release_string json info (codes "bundle_hash"))
      → is_swift_release json info ≡ true
      → Unpacks (outside.tar)
      → ((gs hs : Files)
          → SameOutside fs gs
          → outside.tar gs ≡ (some true, hs)
          → ¬ IsVerified json sha256_hex display refuses info
              ((stage_all json sha256_hex display refuses hs).1))
      → ((auto_update_check_with_install_dir json sha256_hex display refuses current_version outside
            fs).0
          ≡ none)
        × ShowsSame fs (
            (auto_update_check_with_install_dir json sha256_hex display refuses current_version
              outside fs).1)
  auto_update_check_with_install_dir-ShowsSame fs info bytes apart at_first unlinked_archive answer
        newer url download hash swift unpacks rejects =
      let (rs, e, shown) =
        install_update-restores info bytes fs apart at_first unlinked_archive unpacks
          (λ gs hs same unpacked plain.
            let (ks, failed, p) =
              install_swift_update_bundle_at-rejected json sha256_hex display refuses writable info
                gs hs plain (rejects gs hs same unpacked) in
            (ks, not_installed info hs ks swift failed, p)) in
      let run : auto_update_check_with_install_dir json sha256_hex display refuses current_version
            outside fs
          ≡ (none, rs) =
        reaches_install fs info bytes answer newer url download
          (hash_fine (sha256_hex bytes) (release_string json info (codes "bundle_hash")) hash)
        ∙ e in
      (ap (λ r. r.0) run, λ n. ap (λ r. read (r.1) (bin n)) run ∙ shown n)
