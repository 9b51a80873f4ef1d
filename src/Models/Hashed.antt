-- ===== src/Models/Hashed.antt =====
use mathlib.Core.List.{Permᴰ}
use d_inference.Models.Sort.{text_le}
use d_inference.Models.Ordered.{sort_perm, text_le-IsOrder, text_le_antisymmetric}
use d_inference.Models.Scan.{hash_snapshot}
use d_inference.Models.Snapshots.{
  Entry, collect_from, is_integrity_file, resolved_len, Snapshot, add_resolved,
  collect_weight_files, hash_files_sorted, digests,
}
use mathlib.Core.List.Permᴰ
use d_inference.Prelude.{
  true, false, refl, sym, List, Text, Option, if◌then◌else◌, ℕ, ◌∷◌, [], ◌++◌, ◌≡◌, append-nil,
  some, none, Bool, subst, ◌∙◌, ap, append_assoc, is_empty, unwrap_or, ◌>>=◌,
}

-- The hash of a model does not depend on the order in which its directory is listed
-- (provider/src/models.rs and provider/src/security.rs).

abbrev resolved_path : Text → Option ℕ → List Text
resolved_path name none = []
resolved_path name (some len) = name ∷ []

abbrev paths_of : Entry → List Text
paths_of e =
    if is_integrity_file (e.file_name)
    then resolved_path (e.file_name) (resolved_len (e.meta))
    else []

collected : List Entry → List Text
collected [] = []
collected (e ∷ entries) = paths_of e ++ collected entries

collect_from-collected :
    (entries : List Entry) (sums : ℕ × List Text)
    → (collect_from entries sums).1 ≡ sums.1 ++ collected entries
unfolding collect_from collected
collect_from-collected [] sums = sym (append-nil (sums.1))
collect_from-collected (e ∷ entries) sums =
    collect_from-collected entries (
      if is_integrity_file (e.file_name)
      then add_resolved (e.file_name) (resolved_len (e.meta)) sums
      else sums)
    ∙ ap (λ z. z ++ collected entries)
        (added (is_integrity_file (e.file_name)) (resolved_len (e.meta)))
    ∙ append_assoc (sums.1) (paths_of e) (collected entries)
  where
    added :
        (b : Bool) (o : Option ℕ)
        → (if b then add_resolved (e.file_name) o sums else sums).1
          ≡ sums.1 ++ (if b then resolved_path (e.file_name) o else [])
    added true none = sym (append-nil (sums.1))
    added true (some len) = refl
    added false o = sym (append-nil (sums.1))

middle : (x : Text) (ys zs : List Text) → Permᴰ (x ∷ (ys ++ zs)) (ys ++ (x ∷ zs))
middle x [] zs = Permᴰ.refl (x ∷ zs)
middle x (y ∷ ys) zs = Permᴰ.trans (Permᴰ.swap refl refl) (Permᴰ.cons refl (middle x ys zs))

is_empty_perm : {xs ys : List Text} → Permᴰ xs ys → is_empty xs ≡ is_empty ys
is_empty_perm Permᴰ.nil = refl
is_empty_perm (Permᴰ.cons e p) = refl
is_empty_perm (Permᴰ.swap e f) = refl
is_empty_perm (Permᴰ.trans p q) = is_empty_perm p ∙ is_empty_perm q

-- Two pieces of a list change places.
swapped : (xs ys zs : List Text) → Permᴰ (xs ++ (ys ++ zs)) (ys ++ (xs ++ zs))
swapped [] ys zs = Permᴰ.refl (ys ++ zs)
swapped (x ∷ xs) ys zs = Permᴰ.trans (Permᴰ.cons refl (swapped xs ys zs)) (middle x ys (xs ++ zs))

collected_perm : {es fs : List Entry} → Permᴰ es fs → Permᴰ (collected es) (collected fs)
unfolding collected
collected_perm Permᴰ.nil = Permᴰ.nil
collected_perm (Permᴰ.cons {a = a} {l₁ = l} {l₂ = m} e p) =
    subst (λ z. Permᴰ (paths_of a ++ collected l) (paths_of z ++ collected m)) e
      (Permᴰ.append_left (paths_of a) (collected_perm p))
collected_perm (Permᴰ.swap {a = a} {b = b} {l = l} e f) =
    rw (sym e, sym f) (swapped (paths_of a) (paths_of b) (collected l))
collected_perm (Permᴰ.trans p q) = Permᴰ.trans (collected_perm p) (collected_perm q)

listed :
    (s : Snapshot) (es : List Entry)
    → s.read_dir ≡ some es
    → (collect_weight_files s).1 ≡ collected es
unfolding collect_weight_files
listed s es h =
    ap (λ l. (collect_from (unwrap_or l []) (0, [])).1) h ∙ collect_from-collected es (0, [])

module _ (sha256 hex : Text → Text) where
  hash_files_sorted_perm :
      (read : Text → Option Text) {ps qs : List Text}
      → Permᴰ ps qs
      → hash_files_sorted sha256 hex read ps ≡ hash_files_sorted sha256 hex read qs
  unfolding hash_files_sorted
  hash_files_sorted_perm read p =
      ap (λ paths. digests sha256 hex read paths >>= λ all. some (hex (sha256 all)))
        (sort_perm text_le text_le-IsOrder text_le_antisymmetric p)

  abbrev hashed : (Text → Option Text) → List Text → Option Text
  hashed read paths = if is_empty paths then none else hash_files_sorted sha256 hex read paths

  hashed_perm :
      (read : Text → Option Text) {ps qs : List Text}
      → Permᴰ ps qs
      → hashed read ps ≡ hashed read qs
  hashed_perm read {ps} {qs} p =
      ap (λ b. if b then none else hash_files_sorted sha256 hex read ps) (is_empty_perm p)
      ∙ ap (λ h. if is_empty qs then none else h) (hash_files_sorted_perm read p)

  -- Two snapshots that can be read in the same way have the same hash in whatever order their entries
  -- are listed.
  pub hash_snapshot_perm :
      (s t : Snapshot) (es fs : List Entry)
      → s.read_dir ≡ some es
      → t.read_dir ≡ some fs
      → Permᴰ es fs
      → s.read_to_string ≡ t.read_to_string
      → hash_snapshot sha256 hex s ≡ hash_snapshot sha256 hex t
  unfolding hash_snapshot
  hash_snapshot_perm s t es fs hs ht p same =
      ap (hashed (s.read_to_string)) (listed s es hs)
      ∙ hashed_perm (s.read_to_string) (collected_perm p)
      ∙ ap (λ read. hashed read (collected fs)) same
      ∙ sym (ap (hashed (t.read_to_string)) (listed t fs ht))
