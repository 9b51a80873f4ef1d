-- ===== src/Hypervisor/Buffers.antt =====
-- The buffers that `alloc_buffer` gives away, and the states that the operations reach.
use d_inference.Prelude.{
  sym, subst, ◌⊎◌, inl, inr, Option, none, some, List, [], ◌∷◌, arith, All, All-map, ℕ, ◌<◌, ◌+◌,
  ◌≤◌,
}
use d_inference.Hypervisor.Pool.{PoolState, Hypervisor, HvError, alloc_buffer}
use d_inference.Hypervisor.Allocations.{IsSound, Allocs, alloc_buffer-Allocs, alloc_buffer-IsSound}

-- The buffers that a sequence of allocations gives, with their sizes.
abbrev pub collect : HvError ⊎ ℕ → ℕ → List (ℕ × ℕ) → List (ℕ × ℕ)
collect (inl e) size rest = rest
collect (inr ptr) size rest = (ptr, size) ∷ rest

unfoldable pub alloc_buffers : List ℕ → Hypervisor → List (ℕ × ℕ)
alloc_buffers [] h = []
alloc_buffers (size ∷ sizes) h =
    let rest = alloc_buffers sizes (alloc_buffer size h).0 in
    collect (alloc_buffer size h).1 size rest

-- Each buffer ends before every later one starts.
abbrev pub AreDisjoint : List (ℕ × ℕ) → Type 0
AreDisjoint [] = Unit
AreDisjoint ((ptr, size) ∷ rest) = All (λ b. ptr + size ≤ b.0) rest × AreDisjoint rest

abbrev IsBehind : Option PoolState → ℕ × ℕ → Type 0
IsBehind none b = Unit
IsBehind (some pool) b = pool.aligned_base + pool.alloc_offset ≤ b.0

abbrev AreBehind : Hypervisor → List (ℕ × ℕ) → Type 0
AreBehind h rest = All (IsBehind h.pool) rest × AreDisjoint rest

collect-AreBehind :
    (size : ℕ) (h : Hypervisor) (r : Hypervisor × (HvError ⊎ ℕ)) (rest : List (ℕ × ℕ))
    → Allocs size h r
    → AreBehind r.0 rest
    → AreBehind h (collect r.1 size rest)
collect-AreBehind size h (h', inl e) rest same behind =
    subst (λ (k : Hypervisor). AreBehind k rest) same behind
collect-AreBehind size h (h', inr ptr) rest (old, new, was, is, ok, buffer) (behind, disjoint) = (
  subst (λ (o : Option PoolState). All (IsBehind o) ((ptr, size) ∷ rest)) (sym was)
      (buffer.1, All-map (IsBehind (some new)) (IsBehind (some old)) earlier rest after),
  (
    All-map (IsBehind (some new)) (λ b. ptr + size ≤ b.0) (λ b le. omega (arith, le, buffer.2)) rest
        after,
    disjoint,
  ),
)
  where
    after : All (IsBehind (some new)) rest
    after = subst (λ (k : Hypervisor). All (IsBehind k.pool) rest) is behind

    earlier : (b : ℕ × ℕ) → IsBehind (some new) b → IsBehind (some old) b
    earlier b le = omega (arith, le, buffer.1, buffer.2)

alloc_buffers-AreBehind :
    (sizes : List ℕ) (h : Hypervisor)
    → All (λ n. n < 4611686018427387904) sizes
    → IsSound h
    → AreBehind h (alloc_buffers sizes h)
unfolding alloc_buffers
alloc_buffers-AreBehind [] h small sound = (tt, tt)
alloc_buffers-AreBehind (size ∷ sizes) h (s, small) sound =
    collect-AreBehind size h (alloc_buffer size h) _ (alloc_buffer-Allocs size h sound s) (
      alloc_buffers-AreBehind sizes (alloc_buffer size h).0 small
        (alloc_buffer-IsSound size h s sound))

-- No two buffers that a sequence of allocations gives overlap, whichever of the allocations fail. The
-- sizes are below 2^62, and the operations of the module reach the state that the sequence starts in.
pub alloc_buffers-AreDisjoint :
    (sizes : List ℕ) (h : Hypervisor)
    → All (λ n. n < 4611686018427387904) sizes
    → IsSound h
    → AreDisjoint (alloc_buffers sizes h)
alloc_buffers-AreDisjoint sizes h small sound = (alloc_buffers-AreBehind sizes h small sound).1
