-- ===== src/Hypervisor/Chunks.antt =====
-- The chunks of a region, and what `map_chunks` maps of them.
use d_inference.Prelude.{
  ◌≡◌, refl, ap, ◌∙◌, ◌⊎◌, inl, inr, Bool, true, false, List, [], ◌∷◌, arith, if◌then◌else◌, ℕ, ◌%◌,
  ◌+◌, ◌≤◌, ◌*◌, ◌<◌, ◌-◌, suc, zero,
}
use d_inference.Hypervisor.Pool.{
  word, word_sub, chunk_size, chunk_align, Platform, Call, mapped, map_chunks,
}

pub chunk_align-bounds :
    (n : ℕ)
    → n + 16777215 < 18446744073709551616
    → (n ≤ chunk_align n) × (chunk_align n ≤ n + 16777215) × (chunk_align n % 16777216 ≡ 0)
chunk_align-bounds n h = (omega (arith, h), omega (arith, h), omega arith)

pub word_sub_lem : (m n : ℕ) → n ≤ m → m < 18446744073709551616 → word_sub m n ≡ m - n
word_sub_lem m n h k = omega (arith, h, k)

-- The calls that map `count` chunks, one after another.
abbrev pub chunk_calls : (chunk gpa count : ℕ) → List Call
chunk_calls chunk gpa zero = []
chunk_calls chunk gpa (suc count) =
    mapped chunk gpa ∷ chunk_calls (chunk + 16777216) (gpa + 16777216) count

-- So many chunks were mapped, and no more only because they are all or the next one was refused.
abbrev pub IsMapping : Platform → ℕ → (rest i gpa m : ℕ) → ℕ × List Call → Type 0
IsMapping p base rest i gpa m (n, calls) =
    (k : ℕ) × (n ≡ m + k)
    × (k ≤ rest)
    × (calls ≡ chunk_calls (base + i * 16777216) gpa k)
    × ((k ≡ rest) ⊎ (p.maps (base + (i + k) * 16777216) (gpa + k * 16777216) ≡ false))

pub map_chunk-IsMapping :
    (p : Platform) (base rest i gpa gpa' m : ℕ) (r : ℕ × List Call)
    → gpa' ≡ gpa + 16777216
    → IsMapping p base rest (i + 1) gpa' (m + 1) r
    → IsMapping p base (suc rest) i gpa m (r.0, mapped (base + i * 16777216) gpa ∷ r.1)
map_chunk-IsMapping p base rest i gpa gpa' m (n, calls) same (k, count, fewer, are, why) = (
  suc k,
  omega (arith, count),
  omega (arith, fewer),
  ap (λ (cs : List Call). mapped (base + i * 16777216) gpa ∷ cs)
      (are
        ∙ ap (λ (b : ℕ). chunk_calls b gpa' k) (omega arith)
        ∙ ap (λ (g : ℕ). chunk_calls (base + i * 16777216 + 16777216) g k) same),
  elim why [
    | inl all ↦ inl (omega (arith, all))
    | inr refused ↦ inr (
        ap (p.maps (base + (i + suc k) * 16777216)) (omega (arith, same))
        ∙ ap (λ (b : ℕ). p.maps b (gpa' + k * 16777216)) (omega arith)
        ∙ refused)
  ],
)

pub map_chunks-IsMapping :
    (p : Platform) (base rest i gpa m : ℕ)
    → gpa + rest * 16777216 < 18446744073709551616
    → IsMapping p base rest i gpa m (map_chunks p base rest i gpa m)
unfolding map_chunks
map_chunks-IsMapping p base zero i gpa m h = (0, omega arith, omega arith, refl, inl refl)
map_chunks-IsMapping p base (suc rest) i gpa m h =
    from_answer (map_chunks p base rest (i + 1) (word (gpa + chunk_size)) (m + 1))
      (map_chunks-IsMapping p base rest (i + 1) (word (gpa + chunk_size)) (m + 1)
        (omega (arith, h)))
      (p.maps (base + i * 16777216) gpa) refl
  where
    from_answer :
        (r : ℕ × List Call)
        → IsMapping p base rest (i + 1) (word (gpa + 16777216)) (m + 1) r
        → (b : Bool) → p.maps (base + i * 16777216) gpa ≡ b
        → IsMapping p base
            (suc rest)
            i
            gpa
            m
            (if b then (r.0, mapped (base + i * 16777216) gpa ∷ r.1) else (m, []))
    from_answer r ih true e =
        map_chunk-IsMapping p base rest i gpa (word (gpa + 16777216)) m r (omega (arith, h)) ih
    from_answer r ih false e = (
      0,
      omega arith,
      omega arith,
      refl,
      inr (
          ap (λ (b : ℕ). p.maps b (gpa + 0 * 16777216)) (omega arith)
          ∙ ap (p.maps (base + i * 16777216)) (omega arith)
          ∙ e),
    )
