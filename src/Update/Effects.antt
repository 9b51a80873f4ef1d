-- ===== src/Update/Effects.antt =====
use d_inference.Update.Disk.{
  read, file_of, change, remove_file, copy, ignore, follow, Files, Place, follow, Node, place_index,
  set, change, copy, file, remove_file, ignore, link,
}
use d_inference.Prelude.{
  Option, Bool, Text, ℕ, ◌≡◌, false, some, suc, ◌==◌, ◌∙◌, ap, refl, true, arith, none, zero,
  if◌then◌else◌,
}

-- What the calls of `std::fs` do to places that are not links, where nothing is refused
-- (provider/src/main.rs).

abbrev pub as_file : Option (Text × ℕ) → Option Node
as_file none = none
as_file (some (content, mode)) = some (file content mode)

-- The node is a file, or there is none.
abbrev pub IsUnlinked : Option Node → Type 0
IsUnlinked o = as_file (file_of o) ≡ o

pub follow_unlinked : (k : ℕ) (fs : Files) (p : Place) → IsUnlinked (fs p) → follow k fs p ≡ p
unfolding follow
follow_unlinked zero fs p h = refl
follow_unlinked (suc k) fs p h = go (fs p) refl h
  where
    go : (o : Option Node) → fs p ≡ o → IsUnlinked o → follow (suc k) fs p ≡ p
    go none e h = rw (e, follow) refl
    go (some (file content mode)) e h = rw (e, follow) refl
    go (some (link target)) e h = cc

read_unlinked : (fs : Files) (p : Place) → IsUnlinked (fs p) → read fs p ≡ file_of (fs p)
unfolding read
read_unlinked fs p h = rw (follow_unlinked 32 fs p h) refl

file_of-as_file : (o : Option (Text × ℕ)) → file_of (as_file o) ≡ o
file_of-as_file none = refl
file_of-as_file (some (content, mode)) = refl

unlinked : (o : Option (Text × ℕ)) (fs : Files) (p : Place) → fs p ≡ as_file o → IsUnlinked (fs p)
unlinked o fs p e = rw e rw (file_of-as_file o) refl

pub read_as_file :
    (fs : Files) (p : Place) (o : Option (Text × ℕ)) → fs p ≡ as_file o → read fs p ≡ o
read_as_file fs p o e = read_unlinked fs p (unlinked o fs p e) ∙ ap file_of e ∙ file_of-as_file o

place_same : (p : Place) → (place_index p == place_index p) ≡ true
place_same p = ground arith

pub set_here : (p : Place) (o : Option Node) (fs : Files) → set p o fs p ≡ o
set_here p o fs = rw (place_same p) refl

pub set_elsewhere :
    (p q : Place) (o : Option Node) (fs : Files)
    → (place_index p == place_index q) ≡ false
    → set p o fs q ≡ fs q
set_elsewhere p q o fs e = rw e refl

pub set-IsUnlinked :
    (p q : Place) (o : Option Node) (fs : Files)
    → IsUnlinked o
    → IsUnlinked (fs q)
    → IsUnlinked (set p o fs q)
set-IsUnlinked p q o fs h k = go (place_index p == place_index q)
  where
    go : (b : Bool) → IsUnlinked (if b then o else fs q)
    go true = h
    go false = k

module _ (refuses : Place → Bool) (writable : (p : Place) → refuses p ≡ false) where
  pub change_writable :
      (p : Place) (o : Option Node) (fs : Files) → change refuses p o fs ≡ (some tt, set p o fs)
  unfolding change
  change_writable p o fs = rw (writable p, change) refl

  -- A place is empty when its node has been removed, whether there was one or not.
  pub remove_file-Empty :
      (p : Place) (fs : Files)
      → (done : Files) × (ignore (remove_file refuses p) fs ≡ (some tt, done))
        × (done p ≡ none)
        × ((q : Place) → (place_index p == place_index q) ≡ false → done q ≡ fs q)
  unfolding remove_file
  remove_file-Empty p fs = go (fs p) refl
    where
      go :
          (o : Option Node)
          → fs p ≡ o
          → (done : Files) × (ignore (remove_file refuses p) fs ≡ (some tt, done))
            × (done p ≡ none)
            × ((q : Place) → (place_index p == place_index q) ≡ false → done q ≡ fs q)
      go none e = (fs, rw e refl, e, λ q d. refl)
      go (some node) e = (
        set p none fs,
        rw e rw (change_writable p none fs) refl,
        set_here p none fs,
        λ q d. set_elsewhere p q none fs d,
      )

  -- A copy to a place that is no link.
  pub copy_unlinked :
      (source destination : Place) (fs : Files) (content : Text) (mode : ℕ)
      → read fs source ≡ some (content, mode)
      → IsUnlinked (fs destination)
      → copy refuses source destination fs
        ≡ (some tt, set destination (some (file content mode)) fs)
  unfolding copy
  copy_unlinked source destination fs content mode e h =
      rw e rw (follow_unlinked 32 fs destination h)
        (change_writable destination (some (file content mode)) fs)
