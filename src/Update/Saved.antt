-- ===== src/Update/Saved.antt =====
use d_inference.Prelude.{
  Bool, ◌∙◌, ◌≡◌, Option, false, some, ℕ, ap, suc, true, none, Text, zero, refl, ◌<◌, arith, ◌==◌,
  sym, Option-cases, inl, inr,
}
use d_inference.Update.Effects.{copy_unlinked, set_here, set_elsewhere, remove_file-Empty}
use d_inference.Update.Backup.{backup_installed_binary}
use d_inference.Update.Disk.{
  and_then, copy, pure, ◌>>◌, darkbloom, plist, read, name_index, Files, Place, follow, Name,
  backup, bin, link, Node, file_of, file, followed, place_index, exists, ignore, root, app,
  remove_file, set, eigeninference_enclave, darkbloom_enclave, mlx_metallib, plist_tmp, archive,
}

-- What the backups hold (provider/src/main.rs).

-- The update's own places: the backups and the archive.
abbrev pub is_scratch : Place → Bool
is_scratch (backup n) = true
is_scratch archive = true
is_scratch p = false

-- Every place but the update's own is left as it is.
abbrev pub SameOutside : Files → Files → Type 0
SameOutside fs gs = (q : Place) → is_scratch q ≡ false → gs q ≡ fs q

-- No link leads to one of the update's own places.
abbrev pub IsApart : Files → Type 0
IsApart fs = (p q : Place) → fs p ≡ some (link q) → is_scratch q ≡ false

follow-SameOutside :
    (k : ℕ) (fs gs : Files) (p : Place)
    → IsApart fs
    → SameOutside fs gs
    → is_scratch p ≡ false
    → (follow k gs p ≡ follow k fs p) × (is_scratch (follow k fs p) ≡ false)
unfolding follow
follow-SameOutside zero fs gs p apart same e = (refl, e)
follow-SameOutside (suc k) fs gs p apart same e =
    go (fs p) refl (λ q. follow-SameOutside k fs gs q apart same)
  where
    go :
        (o : Option Node)
        → fs p ≡ o
        → ((q : Place)
            → is_scratch q ≡ false
            → (follow k gs q ≡ follow k fs q) × (is_scratch (follow k fs q) ≡ false))
        → (follow (suc k) gs p ≡ follow (suc k) fs p) × (is_scratch (follow (suc k) fs p) ≡ false)
    go none f rec = (rw (same p e ∙ f, follow) rw (f, follow) refl, rw (f, follow) e)
    go (some (file content mode)) f rec =
        (rw (same p e ∙ f, follow) rw (f, follow) refl, rw (f, follow) e)
    go (some (link q)) f rec =
        let (a, b) = rec q (apart p q f) in
        (rw (same p e ∙ f, follow) rw (f, follow) a, rw (f, follow) b)

read-SameOutside :
    (fs gs : Files) (p : Place)
    → IsApart fs
    → SameOutside fs gs
    → is_scratch p ≡ false
    → read gs p ≡ read fs p
unfolding read
read-SameOutside fs gs p apart same e =
    let (a, b) = follow-SameOutside 32 fs gs p apart same e in
    rw (a) (ap file_of (same (followed fs p) b))

pub SameOutside-then :
    (fs gs hs : Files) → SameOutside fs gs → SameOutside gs hs → SameOutside fs hs
SameOutside-then fs gs hs a b q e = b q e ∙ a q e

-- The backup of a binary, as the place that is remembered for it: there is none exactly if there was
-- no binary, and otherwise it holds what the binary's path showed.
pub data IsSaved (fs gs : Files) (n : Name) : Option Place → Type 0 where
  absent : read fs (bin n) ≡ none → IsSaved fs gs n none
  saved :
      (content : Text) (mode : ℕ)
      → read fs (bin n) ≡ some (content, mode)
      → gs (backup n) ≡ some (file content mode)
      → IsSaved fs gs n (some (backup n))

pub name_index_bound : (n : Name) → name_index n < 4
name_index_bound darkbloom = omega arith
name_index_bound eigeninference_enclave = omega arith
name_index_bound darkbloom_enclave = omega arith
name_index_bound mlx_metallib = omega arith

backup_apart :
    (n : Name) (q : Place)
    → is_scratch q ≡ false
    → (place_index (backup n) == place_index q) ≡ false
backup_apart n (root m) e = ground (arith, name_index_bound n, name_index_bound m)
backup_apart n (bin m) e = ground (arith, name_index_bound n, name_index_bound m)
backup_apart n (backup m) e = cc
backup_apart n (app m) e = ground (arith, name_index_bound n, name_index_bound m)
backup_apart n plist e = ground (arith, name_index_bound n)
backup_apart n plist_tmp e = ground (arith, name_index_bound n)
backup_apart n archive e = cc

archive_apart : (q : Place) → is_scratch q ≡ false → (place_index archive == place_index q) ≡ false
archive_apart (root m) e = ground (arith, name_index_bound m)
archive_apart (bin m) e = ground (arith, name_index_bound m)
archive_apart (backup m) e = cc
archive_apart (app m) e = ground (arith, name_index_bound m)
archive_apart plist e = refl
archive_apart plist_tmp e = refl
archive_apart archive e = cc

pub SameOutside-archive : (fs : Files) (o : Option Node) → SameOutside fs (set archive o fs)
SameOutside-archive fs o q e = set_elsewhere archive q o fs (archive_apart q e)

-- Everything but the backup of that name is left as it is.
abbrev SameBut : Name → Files → Files → Type 0
SameBut n gs hs = (q : Place) → (place_index (backup n) == place_index q) ≡ false → hs q ≡ gs q

pub SameOutside-SameBut : (n : Name) (gs hs : Files) → SameBut n gs hs → SameOutside gs hs
SameOutside-SameBut n gs hs h q e = h q (backup_apart n q e)

abbrev Step : (Place → Bool) → Name → Files → Files → Type 0
Step refuses n fs gs =
    (o : Option Place) × (hs : Files) × (backup_installed_binary refuses n gs ≡ (some o, hs))
    × IsSaved fs hs n o
    × SameBut n gs hs

module _ (refuses : Place → Bool) (writable : (p : Place) → refuses p ≡ false) where
  copied :
      (n : Name) (fs gs : Files) (content : Text) (mode : ℕ)
      → IsApart fs
      → SameOutside fs gs
      → read gs (bin n) ≡ some (content, mode)
      → (done : Files) × (ignore (remove_file refuses (backup n)) gs ≡ (some tt, done))
        × (done (backup n) ≡ none)
        × ((q : Place) → (place_index (backup n) == place_index q) ≡ false → done q ≡ gs q)
      → Step refuses n fs gs
  unfolding backup_installed_binary exists
  copied n fs gs content mode apart same e (done, removed, empty, others) = (
    some (backup n),
    set (backup n) (some (file content mode)) done,
    rw (e, backup_installed_binary) refl
        ∙ ap
            (and_then
              (λ (done : Unit {0}). copy refuses (bin n) (backup n) >> pure (some (backup n))))
            removed
        ∙ ap (and_then (λ (done : Unit {0}). pure (some (backup n)))) (
            copy_unlinked refuses writable (bin n) (backup n) done content mode (read_done ∙ e)
              (rw empty refl)),
    IsSaved.saved content mode (sym (read-SameOutside fs gs (bin n) apart same refl) ∙ e)
        (set_here (backup n) (some (file content mode)) done),
    λ q d. set_elsewhere (backup n) q (some (file content mode)) done d ∙ others q d,
  )
    where
      same_done : SameOutside fs done
      same_done = SameOutside-then fs gs done same (SameOutside-SameBut n gs done others)

      read_done : read done (bin n) ≡ read gs (bin n)
      read_done =
          read-SameOutside fs done (bin n) apart same_done refl
          ∙ sym (read-SameOutside fs gs (bin n) apart same refl)

  pub backup_installed_binary-IsSaved :
      (n : Name) (fs gs : Files) → IsApart fs → SameOutside fs gs → Step refuses n fs gs
  unfolding backup_installed_binary exists
  backup_installed_binary-IsSaved n fs gs apart same = elim (Option-cases (read gs (bin n))) [
    | inl e ↦ (
      none,
      gs,
      rw (e, backup_installed_binary) refl,
      IsSaved.absent (sym (read-SameOutside fs gs (bin n) apart same refl) ∙ e),
      λ q d. refl,
    )
    | inr ((content, mode), e) ↦
        copied n fs gs content mode apart same e (remove_file-Empty refuses writable (backup n) gs)
  ]
