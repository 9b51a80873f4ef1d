-- ===== src/Update/Verified.antt =====
use d_inference.Json.{JsonApi}
use d_inference.Update.Release.{release_string}
use d_inference.Update.Install.{verify_bundle}
use d_inference.Prelude.{
  refl, Text, Bool, ◌≡◌, Option, text_eq, some, ℕ, ◌&&◌, false, none, true, ◌∷◌, [], codes,
  Bool-cases, ◌≢◌, inl, inr, text_eq_refl, text_eq→eq, ◌↔◌, ap, ◌∙◌, sym,
}
use d_inference.Update.Disk.{Files, Place, read, bin, darkbloom, darkbloom_enclave, mlx_metallib}

-- The checks of an unpacked release (provider/src/main.rs).

both : (a b : Bool) → (a && b) ≡ true → (a ≡ true) × (b ≡ true)
both true b h = (refl, h)
both false b h = cc

module _ (json : JsonApi) (sha256_hex : Text → Text) (display : Place → Text)
    (refuses : Place → Bool) where
  abbrev both_match : Text → Text → Text → Text → Bool
  both_match content binary_hash lib metallib_hash =
      text_eq (sha256_hex content) binary_hash && text_eq (sha256_hex lib) metallib_hash

  -- Whether files are there and have the hashes that are asked for, which are not empty.
  abbrev matches : Option (Text × ℕ) → Option (Text × ℕ) → Option (Text × ℕ) → Text → Text → Bool
  matches none e l b m = false
  matches (some c) none l b m = false
  matches (some c) (some e) none b m = false
  matches (some c) (some e) (some l) [] m = false
  matches (some c) (some e) (some l) (x ∷ b) [] = false
  matches (some c) (some e) (some l) (x ∷ b) (y ∷ m) = both_match (c.0) (x ∷ b) (l.0) (y ∷ m)

  abbrev bundle_matches : json.Value → Files → Bool
  bundle_matches info fs =
      matches (read fs (bin darkbloom)) (read fs (bin darkbloom_enclave))
        (read fs (bin mlx_metallib)) (release_string json info (codes "binary_hash"))
        (release_string json info (codes "metallib_hash"))

  abbrev accepted : Bool → Option (Unit {0})
  accepted true = some tt
  accepted false = none

  verify_bundle-matches :
      (info : json.Value) (fs : Files)
      → verify_bundle json sha256_hex display refuses info fs
        ≡ (accepted (bundle_matches info fs), fs)
  unfolding verify_bundle
  verify_bundle-matches info fs =
      go (read fs (bin darkbloom)) (read fs (bin darkbloom_enclave)) (read fs (bin mlx_metallib))
        (release_string json info (codes "binary_hash"))
        (release_string json info (codes "metallib_hash")) refl refl refl refl refl
    where
      go :
          (c e l : Option (Text × ℕ)) (b m : Text)
          → read fs (bin darkbloom) ≡ c
          → read fs (bin darkbloom_enclave) ≡ e
          → read fs (bin mlx_metallib) ≡ l
          → release_string json info (codes "binary_hash") ≡ b
          → release_string json info (codes "metallib_hash") ≡ m
          → verify_bundle json sha256_hex display refuses info fs
            ≡ (accepted (matches c e l b m), fs)
      go none e l b m hc he hl hb hm = rw (hc, verify_bundle) refl
      go (some c) none l b m hc he hl hb hm = rw (hc, verify_bundle) rw he refl
      go (some c) (some e) none b m hc he hl hb hm = rw (hc, verify_bundle) rw he rw hl refl
      go (some c) (some e) (some l) [] m hc he hl hb hm =
          rw (hc, verify_bundle) rw he rw hl rw hb refl
      go (some c) (some e) (some l) (x ∷ b) [] hc he hl hb hm =
          rw (hc, verify_bundle) rw he rw hl rw hb rw hm refl
      go (some c) (some e) (some l) (x ∷ b) (y' ∷ m) hc he hl hb hm =
          elim (Bool-cases (text_eq (sha256_hex (c.0)) (x ∷ b))) [
            | inl y ↦ elim (Bool-cases (text_eq (sha256_hex (l.0)) (y' ∷ m))) [
              | inl z ↦ rw (hc, verify_bundle) rw he rw hl rw hb rw hm rw hc rw y rw hl rw z refl
              | inr z ↦ rw (hc, verify_bundle) rw he rw hl rw hb rw hm rw hc rw y rw hl rw z refl
            ]
            | inr y ↦ rw (hc, verify_bundle) rw he rw hl rw hb rw hm rw hc rw y refl
          ]

  -- What a verified bundle is: the three files are there, and the two that have a hash in the release
  -- have that hash, which is not empty.
  pub record IsVerified (info : json.Value) (fs : Files) : Type 0 where
    pub binary : Text × ℕ
    pub helper : Text × ℕ
    metallib : Text × ℕ
    binary_shown : read fs (bin darkbloom) ≡ some binary
    helper_shown : read fs (bin darkbloom_enclave) ≡ some helper
    metallib_shown : read fs (bin mlx_metallib) ≡ some metallib
    pub binary_hash : sha256_hex (binary.0) ≡ release_string json info (codes "binary_hash")
    pub metallib_hash : sha256_hex (metallib.0) ≡ release_string json info (codes "metallib_hash")
    pub binary_hash_some : release_string json info (codes "binary_hash") ≢ []
    metallib_hash_some : release_string json info (codes "metallib_hash") ≢ []

  bundle_matches-IsVerified :
      (info : json.Value) (fs : Files) → bundle_matches info fs ≡ true → IsVerified info fs
  bundle_matches-IsVerified info fs h =
      go (read fs (bin darkbloom)) (read fs (bin darkbloom_enclave)) (read fs (bin mlx_metallib))
        (release_string json info (codes "binary_hash"))
        (release_string json info (codes "metallib_hash")) refl refl refl refl refl h
    where
      go :
          (c e l : Option (Text × ℕ)) (b m : Text)
          → read fs (bin darkbloom) ≡ c
          → read fs (bin darkbloom_enclave) ≡ e
          → read fs (bin mlx_metallib) ≡ l
          → release_string json info (codes "binary_hash") ≡ b
          → release_string json info (codes "metallib_hash") ≡ m
          → matches c e l b m ≡ true
          → IsVerified info fs
      go none e l b m hc he hl hb hm h = cc
      go (some c) none l b m hc he hl hb hm h = cc
      go (some c) (some e) none b m hc he hl hb hm h = cc
      go (some c) (some e) (some l) [] m hc he hl hb hm h = cc
      go (some c) (some e) (some l) (x ∷ b) [] hc he hl hb hm h = cc
      go (some c) (some e) (some l) (x ∷ b) (y ∷ m) hc he hl hb hm h =
          let (p, q) =
            both (text_eq (sha256_hex (c.0)) (x ∷ b)) (text_eq (sha256_hex (l.0)) (y ∷ m)) h in
          record {
            binary = c;
            helper = e;
            metallib = l;
            binary_shown = hc;
            helper_shown = he;
            metallib_shown = hl;
            binary_hash = text_eq→eq (sha256_hex (c.0)) (x ∷ b) p ∙ sym hb;
            metallib_hash = text_eq→eq (sha256_hex (l.0)) (y ∷ m) q ∙ sym hm;
            binary_hash_some = λ z. cc;
            metallib_hash_some = λ z. cc;
          }

  matches_all :
      (c e l : Text × ℕ) (b m : Text)
      → sha256_hex (c.0) ≡ b
      → sha256_hex (l.0) ≡ m
      → b ≢ []
      → m ≢ []
      → matches (some c) (some e) (some l) b m ≡ true
  matches_all c e l [] m hb hm nb nm = absurd (nb refl)
  matches_all c e l (x ∷ b) [] hb hm nb nm = absurd (nm refl)
  matches_all c e l (x ∷ b) (y ∷ m) hb hm nb nm =
      rw (hb, hm) rw (text_eq_refl (x ∷ b), text_eq_refl (y ∷ m)) refl

  bundle_matches_verified :
      (info : json.Value) (fs : Files) → IsVerified info fs → bundle_matches info fs ≡ true
  bundle_matches_verified info fs v =
      rw (v.binary_shown, v.helper_shown, v.metallib_shown)
        (matches_all (v.binary) (v.helper) (v.metallib)
          (release_string json info (codes "binary_hash"))
          (release_string json info (codes "metallib_hash")) (v.binary_hash) (v.metallib_hash)
          (v.binary_hash_some) (v.metallib_hash_some))

  -- The checks of an unpacked release leave the files alone, and they succeed exactly if the binary,
  -- the helper and the library are there, and the binary and the library have the hashes that the
  -- release names, which are not empty.
  pub verify_bundle-IsVerified :
      (info : json.Value) (fs : Files)
      → ((verify_bundle json sha256_hex display refuses info fs).1 ≡ fs)
        × (((verify_bundle json sha256_hex display refuses info fs).0 ≡ some tt)
            ↔ IsVerified info fs)
  verify_bundle-IsVerified info fs = rw (verify_bundle-matches info fs) (
    refl,
    (
      λ h. bundle_matches-IsVerified info fs (taken (bundle_matches info fs) h),
      λ v. ap accepted (bundle_matches_verified info fs v),
    ),
  )
    where
      taken : (b : Bool) → accepted b ≡ some tt → b ≡ true
      taken true h = refl
      taken false h = cc
