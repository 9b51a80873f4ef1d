-- ===== src/Update/Unhashed.antt =====
-- A release without a hash, and small inputs of the theorems on updates (provider/src/main.rs).
use d_inference.Update.Verified.{IsVerified, verify_bundle-IsVerified}
use d_inference.Update.Undone.{ShowsSame, auto_update_check_with_install_dir-ShowsSame}
use d_inference.Update.Effects.{IsUnlinked, set-IsUnlinked}
use d_inference.Update.Versions.{version_text, IsLater, is_newer_version-version_text}
use d_inference.Update.Install.{verify_bundle}
use d_inference.Update.Release.{is_newer_version, is_swift_release, release_string, version_of}
use d_inference.Update.Rejected.{IsPlain}
use d_inference.Update.Saved.{IsApart, is_scratch}
use d_inference.Update.Disk.{
  Files, Place, set, bin, pure, darkbloom, eigeninference_enclave, file, darkbloom_enclave, link,
  root, mlx_metallib, Name, backup, place_index,
}
use d_inference.Update.Auto.{Outside, auto_update_check_with_install_dir}
use d_inference.Prelude.{
  Text, Bool, codes, some, ◌≡◌, [], if◌then◌else◌, none, refl, true, ◌↔◌, arith, inl, false, ◌==◌,
}
use d_inference.Update.Examples.{
  lines_json, no_refusal, plain_hash, show_place, swift_info, nothing_there, with_lib, with_enclave,
  unpack, field_of,
}

-- A release without the hash of its binary.
abbrev unhashed_info : Text
unhashed_info = codes "version:1.2.0\ndownload_url:u\nmetallib_hash:lib\n"

abbrev outside_unhashed : Outside Text
outside_unhashed = record {
  version_answer = some unhashed_info;
  download = λ url. some (codes "bytes");
  tar = unpack;
  verify_installed_update_runtime = pure tt;
}

abbrev helper_only : Files
helper_only = set (bin eigeninference_enclave) (some (file (codes "helper") 493)) nothing_there

abbrev two_binaries : Files
two_binaries = set (bin darkbloom) (some (file (codes "old") 493)) helper_only

two_binaries-IsApart : IsApart two_binaries
two_binaries-IsApart p q =
    go (place_index (bin darkbloom) == place_index p)
      (place_index (bin eigeninference_enclave) == place_index p)
  where
    go :
        (a b : Bool)
        → (if a
            then some (file (codes "old") 493)
            else if b
            then some (file (codes "helper") 493)
            else none)
          ≡ some (link q)
        → is_scratch q ≡ false
    go true b e = cc
    go false true e = cc
    go false false e = cc

two_binaries-IsPlain : IsPlain two_binaries two_binaries
two_binaries-IsPlain = record {
  backups_kept = λ n. refl;
  plain_bins = λ n. plain (bin n);
  plain_roots = λ n. plain (root n);
}
  where
    plain : (p : Place) → IsUnlinked (two_binaries p)
    plain p = set-IsUnlinked (bin darkbloom) p (some (file (codes "old") 493)) helper_only refl (
        set-IsUnlinked (bin eigeninference_enclave) p (some (file (codes "helper") 493))
          nothing_there refl refl)

unpack-IsPlain : (gs : Files) → IsPlain gs gs → IsPlain gs ((unpack gs).1)
unpack-IsPlain gs plain = record {
  backups_kept = kept;
  plain_bins = λ n. put (bin n) (plain.plain_bins n);
  plain_roots = λ n. put (root n) (plain.plain_roots n);
}
  where
    put : (p : Place) → IsUnlinked (gs p) → IsUnlinked ((unpack gs).1 p)
    put p h =
        set-IsUnlinked (bin darkbloom) p (some (file (codes "new") 420)) (with_enclave gs) refl (
          set-IsUnlinked (bin darkbloom_enclave) p (some (file (codes "enclave") 420)) (with_lib gs)
            refl (set-IsUnlinked (bin mlx_metallib) p (some (file (codes "lib") 420)) gs refl h))

    kept : (n : Name) → (unpack gs).1 (backup n) ≡ gs (backup n)
    kept darkbloom = refl
    kept eigeninference_enclave = refl
    kept darkbloom_enclave = refl
    kept mlx_metallib = refl

no_hash : release_string lines_json unhashed_info (codes "binary_hash") ≡ []
unfolding release_string field_of
no_hash = refl

unhashed_newer : is_newer_version (codes "1.1.9") (version_of lines_json unhashed_info) ≡ true
unfolding is_newer_version version_of field_of
unhashed_newer = refl

unhashed_url : release_string lines_json unhashed_info (codes "download_url") ≡ codes "u"
unfolding release_string field_of
unhashed_url = refl

unhashed_swift : is_swift_release lines_json unhashed_info ≡ true
unfolding is_swift_release field_of
unhashed_swift = refl

no_bundle_hash : release_string lines_json unhashed_info (codes "bundle_hash") ≡ []
unfolding release_string field_of
no_bundle_hash = refl

auto_update_check_with_install_dir-ShowsSame_example :
    ((auto_update_check_with_install_dir lines_json plain_hash show_place no_refusal
        (codes "1.1.9")
        outside_unhashed
        two_binaries).0
      ≡ none)
    × ShowsSame lines_json plain_hash show_place no_refusal
        (codes "1.1.9")
        outside_unhashed
        (λ p. refl)
        two_binaries
        ((auto_update_check_with_install_dir lines_json plain_hash show_place no_refusal
          (codes "1.1.9")
          outside_unhashed
          two_binaries).1)
auto_update_check_with_install_dir-ShowsSame_example =
    auto_update_check_with_install_dir-ShowsSame lines_json plain_hash show_place no_refusal
      (codes "1.1.9") outside_unhashed (λ p. refl) two_binaries unhashed_info (codes "bytes")
      two_binaries-IsApart two_binaries-IsPlain refl refl unhashed_newer (rw unhashed_url refl) refl
      (inl no_bundle_hash) unhashed_swift
      (λ gs plain. ((unpack gs).1, refl, unpack-IsPlain gs plain))
      (λ gs hs same unpacked verified. verified.binary_hash_some no_hash)

abbrev verified_files : Files
verified_files = (unpack nothing_there).1

verify_bundle-IsVerified_example :
    ((verify_bundle lines_json plain_hash show_place no_refusal swift_info verified_files).1
      ≡ verified_files)
    × (((verify_bundle lines_json plain_hash show_place no_refusal swift_info verified_files).0
          ≡ some tt)
        ↔ IsVerified lines_json plain_hash show_place no_refusal swift_info verified_files)
verify_bundle-IsVerified_example =
    verify_bundle-IsVerified lines_json plain_hash show_place no_refusal swift_info verified_files

is_newer_version-version_text_example :
    (is_newer_version (version_text 1 9 4) (version_text 1 10 0) ≡ true)
    ↔ IsLater (1, 10, 0) (1, 9, 4)
is_newer_version-version_text_example =
    is_newer_version-version_text 1 9 4 1 10 0 (omega arith) (omega arith) (omega arith)
      (omega arith) (omega arith) (omega arith)
