-- ===== src/Update/Rejected.antt =====
use d_inference.Prelude.{
  refl, true, false, Bool, subst, Bool, ◌≡◌, false, some, none, Option, Text, ◌==◌, ◌∙◌, arith,
  ◌&&◌, not, ap, Option-cases, inl, inr, sym,
}
use d_inference.Update.Verified.{IsVerified, verify_bundle-IsVerified}
use d_inference.Update.Saved.{name_index_bound}
use d_inference.Update.Install.{
  link_helper, runtime_binary_path, migrate_plist, stage_all, when, install_swift_update_bundle_at,
  verify_bundle,
}
use d_inference.Json.{JsonApi}
use d_inference.Update.Effects.{IsUnlinked, set_elsewhere, set-IsUnlinked, change_writable}
use d_inference.Update.Disk.{
  and_then, ◌>>◌, ◌>>=◌, Files, Place, Name, backup, bin, rename, ignore, root, Node, set,
  place_index, Io, exists, darkbloom, darkbloom_enclave, mlx_metallib, eigeninference_enclave,
}

-- A release that does not verify is undone (provider/src/main.rs).

-- The places from which and to which a release is unpacked are no links, and the backups are those of
-- another state.
pub record IsPlain (saved fs : Files) : Type 0 where
  pub backups_kept : (n : Name) → fs (backup n) ≡ saved (backup n)
  pub plain_bins : (n : Name) → IsUnlinked (fs (bin n))
  pub plain_roots : (n : Name) → IsUnlinked (fs (root n))

bin_backup : (a n : Name) → (place_index (bin a) == place_index (backup n)) ≡ false
bin_backup a n = ground (arith, name_index_bound a, name_index_bound n)

root_backup : (a n : Name) → (place_index (root a) == place_index (backup n)) ≡ false
root_backup a n = ground (arith, name_index_bound a, name_index_bound n)

module _ (refuses : Place → Bool) (writable : (p : Place) → refuses p ≡ false) where
  rename-IsPlain :
      (a b : Name) (saved fs : Files)
      → IsPlain saved fs
      → (gs : Files) × (ignore (rename refuses (root a) (bin b)) fs ≡ (some tt, gs))
        × IsPlain saved gs
  unfolding rename
  rename-IsPlain a b saved fs plain = go (fs (root a)) refl
    where
      moved : Node → Files
      moved node = set (bin b) (some node) (set (root a) none fs)

      go :
          (o : Option Node)
          → fs (root a) ≡ o
          → (gs : Files) × (ignore (rename refuses (root a) (bin b)) fs ≡ (some tt, gs))
            × IsPlain saved gs
      go none e = (fs, rw (writable (bin b), rename) rw e refl, plain)
      go (some node) e = (
        moved node,
        rw (writable (bin b), rename) rw e rw (change_writable refuses writable (root a) none fs) rw
            (change_writable refuses writable (bin b) (some node) (set (root a) none fs)) refl,
        record {
          backups_kept = λ n.
              set_elsewhere (bin b) (backup n) (some node) (set (root a) none fs) (bin_backup b n)
              ∙ set_elsewhere (root a) (backup n) none fs (root_backup a n)
              ∙ plain.backups_kept n;
          plain_bins = λ n.
              set-IsUnlinked (bin b) (bin n) (some node) (set (root a) none fs)
                (subst IsUnlinked e (plain.plain_roots a))
                (set-IsUnlinked (root a) (bin n) none fs refl (plain.plain_bins n));
          plain_roots = λ n.
              set-IsUnlinked (bin b) (root n) (some node) (set (root a) none fs)
                (subst IsUnlinked e (plain.plain_roots a))
                (set-IsUnlinked (root a) (root n) none fs refl (plain.plain_roots n));
        },
      )

module _ (json : JsonApi) (sha256_hex : Text → Text) (display : Place → Text)
    (refuses : Place → Bool) (writable : (p : Place) → refuses p ≡ false) where
  abbrev Staged : Io (Unit {0}) → Files → Files → Type 0
  Staged m saved fs = (gs : Files) × (m fs ≡ (some tt, gs)) × IsPlain saved gs

  moved_when-Staged :
      (test : Bool) (a b : Name) (saved fs : Files)
      → IsPlain saved fs
      → (gs : Files) × (when json sha256_hex display refuses test
            (ignore (rename refuses (root a) (bin b)))
            fs
          ≡ (some tt, gs))
        × IsPlain saved gs
  moved_when-Staged true a b saved fs plain = rename-IsPlain refuses writable a b saved fs plain
  moved_when-Staged false a b saved fs plain = (fs, refl, plain)

  stage_all-IsPlain :
      (saved fs : Files)
      → IsPlain saved fs
      → Staged (stage_all json sha256_hex display refuses) saved fs
  unfolding stage_all
  stage_all-IsPlain saved fs plain =
      let (f1, e1, p1) =
        moved_when-Staged (exists fs (root darkbloom)) darkbloom darkbloom saved fs plain in
      let (f2, e2, p2) =
        moved_when-Staged (exists f1 (root darkbloom_enclave)) darkbloom_enclave darkbloom_enclave
          saved f1 p1 in
      let (f3, e3, p3) =
        moved_when-Staged (exists f2 (root mlx_metallib)) mlx_metallib mlx_metallib saved f2 p2 in
      let (f4, e4, p4) =
        moved_when-Staged
          (exists f3 (root eigeninference_enclave) && not (exists f3 (bin darkbloom_enclave)))
          eigeninference_enclave darkbloom_enclave saved f3 p3 in
      (f4, rw e1 rw e2 rw e3 e4, p4)

  refused_bundle :
      (info : json.Value) (fs gs : Files)
      → fs ≡ gs
      → ¬ IsVerified json sha256_hex display refuses info fs
      → verify_bundle json sha256_hex display refuses info gs ≡ (none, gs)
  refused_bundle info fs gs e rejected =
      let (kept, verified) = verify_bundle-IsVerified json sha256_hex display refuses info gs in
      let result = verify_bundle json sha256_hex display refuses info gs in
      elim (Option-cases (result.0)) [
        | inl n ↦ λ i. (n i, kept i)
        | inr (done, y) ↦ absurd (
            rejected
              (subst (IsVerified json sha256_hex display refuses info) (sym e) (verified.0 y)))
      ]

  -- A release that is not verified fails to install, and the files are as they were unpacked, up to
  -- their places.
  pub install_swift_update_bundle_at-rejected :
      (info : json.Value) (saved fs : Files)
      → IsPlain saved fs
      → ¬ IsVerified json sha256_hex display refuses info
          ((stage_all json sha256_hex display refuses fs).1)
      → (gs : Files) × (install_swift_update_bundle_at json sha256_hex display refuses info fs
          ≡ (none, gs))
        × IsPlain saved gs
  unfolding install_swift_update_bundle_at
  install_swift_update_bundle_at-rejected info saved fs plain rejected =
      let (gs, staged, p) = stage_all-IsPlain saved fs plain in
      (
        gs,
        rw staged (
            ap
              (and_then (λ (done : Unit {0}).
                link_helper json sha256_hex display refuses
                >> (runtime_binary_path json sha256_hex display refuses
                    >>= migrate_plist json sha256_hex display refuses)))
              (refused_bundle info ((stage_all json sha256_hex display refuses fs).1) gs
                (ap (λ r. r.1) staged) rejected)),
        p,
      )
