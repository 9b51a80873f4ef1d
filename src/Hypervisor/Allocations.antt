-- ===== src/Hypervisor/Allocations.antt =====
-- One allocation from the pool.
use d_inference.Prelude.{
  ◌≡◌, refl, sym, subst, ◌⊎◌, inl, inr, Bool, true, false, not, Option, none, some, arith, ltb,
  if◌then◌else◌, ℕ, ◌%◌, ◌<◌, ◌*◌, ◌+◌, ◌≤◌, ◌-◌,
}
use d_inference.Hypervisor.Pool.{
  word, chunk_size, page_align, PoolState, Hypervisor, HvError, carve, alloc_buffer, exhausted,
  vm_not_active,
}
use d_inference.Hypervisor.Mapped.{IsPool}

-- A pool exists only beside a virtual machine, and is well formed.
abbrev pub IsSoundPool : Bool → Option PoolState → Type 0
IsSoundPool active none = Unit
IsSoundPool active (some pool) = (active ≡ true) × IsPool pool

abbrev pub IsSound : Hypervisor → Type 0
IsSound h = IsSoundPool h.active h.pool

-- A buffer of a pool, given away between two of its states: on a page, inside the mapped chunks,
-- behind all that was given away before and inside what is given away now.
abbrev pub IsBuffer : ℕ → PoolState → PoolState → ℕ → Type 0
IsBuffer size old new ptr =
    (ptr % 4096 ≡ 0)
    × (old.aligned_base + old.alloc_offset ≤ ptr)
    × (ptr + size ≡ new.aligned_base + new.alloc_offset)
    × (ptr + size ≤ new.aligned_base + new.mapped_chunks * 16777216)
    × (new ≡ record old { alloc_offset = new.alloc_offset })

-- An allocation either gives a buffer, or is an error that changes nothing.
abbrev pub Allocs : ℕ → Hypervisor → Hypervisor × (HvError ⊎ ℕ) → Type 0
Allocs size h (h', inl e) = h' ≡ h
Allocs size h (h', inr ptr) =
    (old : PoolState) × (new : PoolState) × (h.pool ≡ some old)
    × (h' ≡ record h { pool = some new })
    × IsPool new
    × IsBuffer size old new ptr

-- The arithmetic of an allocation that is not refused.
pub room :
    (offset space size : ℕ)
    → offset ≤ space
    → space < 9223372036854775808
    → size < 4611686018427387904
    → ltb (word space) (word (page_align offset + size)) ≡ false
    → (offset ≤ page_align offset)
      × (word (page_align offset + size) ≡ page_align offset + size)
      × (page_align offset + size ≤ space)
room offset space size h hs small t = (omega (arith, h, hs), no_wrap, fits)
  where
    low : page_align offset ≤ offset + 4095
    low = omega (arith, h, hs)

    no_wrap : word (page_align offset + size) ≡ page_align offset + size
    no_wrap = omega (arith, low, h, hs, small)

    same : word space ≡ space
    same = omega (arith, hs)

    not_lt : (a b : ℕ) → ltb a b ≡ false → b ≤ a
    not_lt a b e = ground (arith, e)

    fits : page_align offset + size ≤ space
    fits = omega (arith, not_lt _ _ t, no_wrap, same)

pub aligned_sum : (base offset : ℕ) → base % 16777216 ≡ 0 → (base + page_align offset) % 4096 ≡ 0
aligned_sum base offset h = omega (arith, h)

pub carve-Allocs :
    (size : ℕ) (h : Hypervisor) (o : Option PoolState)
    → h.pool ≡ o
    → IsSoundPool h.active o
    → size < 4611686018427387904
    → Allocs size h (carve size h o)
carve-Allocs size h none e sound small = refl
carve-Allocs size h (some pool) e (active, ok) small =
    from_test
      (ltb (word (pool.mapped_chunks * chunk_size)) (word (page_align pool.alloc_offset + size)))
      refl
  where
    from_test :
        (b : Bool)
        → ltb (word (pool.mapped_chunks * chunk_size)) (word (page_align pool.alloc_offset + size))
          ≡ b
        → Allocs size h (
            if b
            then (
              h,
              inl (
                  exhausted size
                    (word (pool.mapped_chunks * chunk_size) - page_align pool.alloc_offset)),
            )
            else (
              record h {
                pool =
                    some
                      (record pool { alloc_offset = word (page_align pool.alloc_offset + size) });
              },
              inr (pool.aligned_base + page_align pool.alloc_offset),
            ))
    from_test true t = refl
    from_test false t =
        let fits =
          room pool.alloc_offset (pool.mapped_chunks * 16777216) size ok.within
            (omega (arith, ok.inside, ok.starts, ok.small)) small t in
        (
          pool,
          record pool { alloc_offset = word (page_align pool.alloc_offset + size) },
          e,
          refl,
          record {
            aligned = ok.aligned;
            starts = ok.starts;
            inside = ok.inside;
            bounded = ok.bounded;
            small = ok.small;
            within = omega (arith, fits.1, fits.2);
          },
          (
            aligned_sum pool.aligned_base pool.alloc_offset ok.aligned,
            omega (arith, fits.0),
            omega (arith, fits.1),
            omega (arith, fits.2),
            refl,
          ),
        )

-- An allocation, in a state that the operations reach and of less than 2^62 bytes, either gives a
-- buffer or is an error that changes nothing. The buffer starts on a page, lies inside the chunks
-- that are mapped in the virtual machine, and behind every byte that was given away before; the
-- pool's next allocation starts behind it, and nothing else of the pool changes.
pub alloc_buffer-Allocs :
    (size : ℕ) (h : Hypervisor)
    → IsSound h
    → size < 4611686018427387904
    → Allocs size h (alloc_buffer size h)
unfolding alloc_buffer
alloc_buffer-Allocs size h sound small = from_active h.active
  where
    from_active :
        (b : Bool) → Allocs size h (if not b then (h, inl vm_not_active) else carve size h h.pool)
    from_active true = carve-Allocs size h h.pool refl sound small
    from_active false = refl

pub alloc_buffer-IsSound :
    (n : ℕ) (h : Hypervisor) → n < 4611686018427387904 → IsSound h → IsSound (alloc_buffer n h).0
alloc_buffer-IsSound n h small sound = go (alloc_buffer n h) (alloc_buffer-Allocs n h sound small)
  where
    active_with :
        (o : Option PoolState) (old : PoolState)
        → o ≡ some old
        → IsSoundPool h.active o
        → h.active ≡ true
    active_with none old e s = absurd (ground (arith, e))
    active_with (some pool) old e s = s.0

    go : (r : Hypervisor × (HvError ⊎ ℕ)) → Allocs n h r → IsSound r.0
    go (h', inl e) same = subst IsSound (sym same) sound
    go (h', inr ptr) (old, new, was, is, ok, buffer) =
        subst IsSound (sym is) (active_with h.pool old was sound, ok)
