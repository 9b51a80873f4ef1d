-- ===== src/Hypervisor/Capacity.antt =====
-- The test before an allocation, and the pool's capacity.
use d_inference.Prelude.{
  ◌≡◌, refl, ◌↔◌, ◌⊎◌, inl, inr, Bool, true, false, not, Option, none, some, arith, ltb,
  if◌then◌else◌, ℕ, ◌*◌, ◌+◌, ◌-◌,
}
use d_inference.Hypervisor.Pool.{
  word, chunk_size, page_align, PoolState, Hypervisor, HvError, carve, alloc_buffer, exhausted,
  vm_not_active,
}
use d_inference.Hypervisor.Pool.{has_room, pool_has_capacity}
use d_inference.Hypervisor.Allocations.{IsSound, IsSoundPool}

abbrev pub Succeeded : Hypervisor × (HvError ⊎ ℕ) → Type 0
Succeeded (h, inl e) = ⊥
Succeeded (h, inr ptr) = Unit

carve-Succeeded :
    (size : ℕ) (h : Hypervisor) (o : Option PoolState)
    → (Succeeded (carve size h o) ↔ (has_room size o ≡ true))
carve-Succeeded size h none = (λ no'. elim no' [ ], λ e. absurd (ground (arith, e)))
carve-Succeeded size h (some pool) =
    from_test
      (ltb (word (pool.mapped_chunks * chunk_size)) (word (page_align pool.alloc_offset + size)))
      refl
  where
    from_test :
        (b : Bool)
        → ltb (word (pool.mapped_chunks * chunk_size)) (word (page_align pool.alloc_offset + size))
          ≡ b
        → Succeeded (
            if b
            then (
              h,
              inl (
                  exhausted size
                    (word (pool.mapped_chunks * chunk_size) - page_align pool.alloc_offset)),
            )
            else (
              record h {
                pool =
                    some
                      (record pool { alloc_offset = word (page_align pool.alloc_offset + size) });
              },
              inr (pool.aligned_base + page_align pool.alloc_offset),
            ))
          ↔ (has_room size (some pool) ≡ true)
    from_test true t = (λ no'. elim no' [ ], λ e. absurd (ground (arith, e, t)))
    from_test false t = (λ u. ground (arith, t), λ e. tt)

-- In a state that the operations reach, `pool_has_capacity` holds of a size exactly if the allocation
-- of that size succeeds; without a virtual machine it holds of none.
pool_has_capacity-Succeeded :
    (size : ℕ) (h : Hypervisor)
    → IsSound h
    → ((pool_has_capacity size h ≡ true) ↔ Succeeded (alloc_buffer size h))
unfolding pool_has_capacity alloc_buffer
pool_has_capacity-Succeeded size h sound = from_active h.active h.pool sound
  where
    from_active :
        (b : Bool) (o : Option PoolState)
        → IsSoundPool b o
        → ((has_room size o ≡ true)
            ↔ Succeeded (if not b then (h, inl vm_not_active) else carve size h o))
    from_active true o s = let (to, from) = carve-Succeeded size h o in (from, to)
    from_active false none s = (λ e. absurd (ground (arith, e)), λ no'. elim no' [ ])
    from_active false (some pool) s = absurd (ground (arith, s.0))
