-- ===== src/Hypervisor/Examples.antt =====
-- A pool of one chunk, from which two buffers are given away.
use d_inference.Prelude.{
  ◌≡◌, refl, Bool, true, false, none, some, List, [], ◌∷◌, arith, leb, if◌then◌else◌, leb→le, ℕ,
  ◌+◌, ◌<◌,
}
use d_inference.Hypervisor.Pool.{
  PoolState, Hypervisor, Platform, Call, mapped, allocate_pool, alloc_buffer, map_pool, map_chunks,
}
use d_inference.Hypervisor.Mapped.{IsPool, IsMapped, allocate_pool-IsMapped}
use d_inference.Hypervisor.Buffers.{AreDisjoint, alloc_buffers, alloc_buffers-AreDisjoint}
use d_inference.Hypervisor.Allocations.{IsSound, Allocs, alloc_buffer-Allocs}
use d_inference.Hypervisor.Runs.{run, create, allocate, alloc, destroy, run-IsSound}

-- `mmap` gives the region from 40960 on; the virtual machine maps whatever it is asked to.
abbrev platform : Platform
platform = record {
  create_code = 0;
  mmap = λ size. if leb size 100000000 then some 40960 else none;
  maps = λ chunk gpa. true;
}

abbrev fresh : Hypervisor
fresh = record { active = true; pool = none }

abbrev pool : PoolState
pool = record {
  pool_base = 40960;
  pool_mmap_size = 37216000;
  aligned_base = 16777216;
  usable_size = 20479744;
  mapped_chunks = 1;
  alloc_offset = 0;
}

abbrev ready : Hypervisor
ready = record { active = true; pool = some pool }

platform-regions :
    (size addr : ℕ) → platform.mmap size ≡ some addr → addr + size < 18446744073709551616
platform-regions size addr e = from_test (leb size 100000000) refl e
  where
    from_test :
        (b : Bool)
        → leb size 100000000 ≡ b
        → (if b then some 40960 else none) ≡ some addr
        → addr + size < 18446744073709551616
    from_test true le is = omega (arith, leb→le size 100000000 le, unwrap is)
      where
        unwrap : some 40960 ≡ some addr → 40960 ≡ addr
        unwrap q = ground (arith, q)
    from_test false le is = absurd (ground (arith, is))

pool-IsPool : IsPool pool
pool-IsPool = record {
  aligned = refl;
  starts = omega arith;
  inside = omega arith;
  bounded = omega arith;
  small = omega arith;
  within = omega arith;
}

allocate_pool-IsMapped_example :
    (made : PoolState) × (calls : List Call) × (allocate_pool platform 20438784 fresh
      ≡ (record fresh { pool = some made }, none, calls))
    × (made.pool_base ≡ 40960)
    × IsMapped platform 20438784 (made, calls)
allocate_pool-IsMapped_example =
    allocate_pool-IsMapped platform 20438784 40960 fresh platform-regions (omega arith) refl refl
      refl

made_pool : map_pool platform 37216000 40960 ≡ (pool, mapped 16777216 4294967296 ∷ [])
unfolding map_pool map_chunks
made_pool = refl

alloc_buffer-Allocs_example : Allocs 5000 ready (alloc_buffer 5000 ready)
alloc_buffer-Allocs_example = alloc_buffer-Allocs 5000 ready (refl, pool-IsPool) (omega arith)

alloc_buffers-AreDisjoint_example : AreDisjoint (alloc_buffers (5000 ∷ 17000000 ∷ 300 ∷ []) ready)
alloc_buffers-AreDisjoint_example =
    alloc_buffers-AreDisjoint (5000 ∷ 17000000 ∷ 300 ∷ []) ready
      (omega arith, (omega arith, (omega arith, tt))) (refl, pool-IsPool)

given : alloc_buffers (5000 ∷ 17000000 ∷ 300 ∷ []) ready ≡ (16777216, 5000) ∷ (16785408, 300) ∷ []
unfolding alloc_buffers alloc_buffer
given = refl

run-IsSound_example : IsSound (
    run platform
      (create ∷ allocate 20438784 ∷ alloc 5000 ∷ destroy ∷ create ∷ [])
      (record { active = false; pool = none }))
run-IsSound_example =
    run-IsSound platform (create ∷ allocate 20438784 ∷ alloc 5000 ∷ destroy ∷ create ∷ [])
      (record { active = false; pool = none }) platform-regions
      (tt, (omega arith, (omega arith, (tt, (tt, tt))))) tt
