-- ===== src/Hypervisor/Runs.antt =====
-- The states that the operations of `hypervisor.rs` reach.
use d_inference.Prelude.{
  ◌≡◌, refl, sym, subst, Bool, true, false, not, Option, none, some, List, [], ◌∷◌, ◌++◌, arith,
  ◌==◌, if◌then◌else◌, All, ℕ, ◌<◌, ◌+◌,
}
use d_inference.Hypervisor.Pool.{
  word, PoolState, Hypervisor, Platform, Call, HvError, create_vm, with_region, unless_pool,
  allocate_pool, alloc_buffer, destroy_vm, create_failed, release, vm_not_active, vm_destroy,
}
use d_inference.Hypervisor.Mapped.{MapsRegions, map_pool-IsMapped}
use d_inference.Hypervisor.Allocations.{IsSound, IsSoundPool, alloc_buffer-IsSound}

-- The operations of the module.
pub data Operation : Type 0 where
  create : Operation
  allocate : ℕ → Operation
  alloc : ℕ → Operation
  destroy : Operation

unfoldable pub run : Platform → List Operation → Hypervisor → Hypervisor
run p [] h = h
run p (create ∷ ops) h = run p ops (create_vm p h).0
run p (allocate n ∷ ops) h = run p ops (allocate_pool p n h).0
run p (alloc n ∷ ops) h = run p ops (alloc_buffer n h).0
run p (destroy ∷ ops) h = run p ops (destroy_vm h).0

-- The sizes of the operation are below 2^62.
abbrev pub IsSmall : Operation → Type 0
IsSmall create = Unit
IsSmall (allocate n) = n < 4611686018427387904
IsSmall (alloc n) = n < 4611686018427387904
IsSmall destroy = Unit

IsSound-active : (b : Bool) (o : Option PoolState) → IsSoundPool b o → IsSoundPool true o
IsSound-active b none s = tt
IsSound-active b (some pool) (a, ok) = (refl, ok)

create_vm-IsSound : (p : Platform) (h : Hypervisor) → IsSound h → IsSound (create_vm p h).0
unfolding create_vm
create_vm-IsSound p h sound = go h.active (p.create_code == 0)
  where
    go :
        (b c : Bool)
        → IsSound
            (if◌then◌else◌ {A = Hypervisor × Option HvError} b
              (h, none)
              (if c
                then (record h { active = true }, none)
                else (h, some (create_failed p.create_code)))).0
    go true c = sound
    go false true = IsSound-active h.active h.pool sound
    go false false = sound

allocate_pool-IsSound :
    (p : Platform) (n : ℕ) (h : Hypervisor)
    → MapsRegions p
    → n < 4611686018427387904
    → IsSound h
    → IsSound (allocate_pool p n h).0
unfolding allocate_pool
allocate_pool-IsSound p n h regions small sound = from_active h.active refl
  where
    no_wrap : word (n + 16777216) ≡ n + 16777216
    no_wrap = omega (arith, small)

    from_region :
        (o : Option ℕ)
        → h.active ≡ true
        → p.mmap (n + 16777216) ≡ o
        → IsSound (with_region p h (n + 16777216) o).0
    from_region none active e = sound
    from_region (some addr) active e =
        (active, (map_pool-IsMapped p n addr small (regions (n + 16777216) addr e)).0)

    from_pool : (o : Option PoolState) → h.active ≡ true → IsSound (unless_pool p n h o).0
    from_pool none active =
        subst (λ (size : ℕ). IsSound (with_region p h size (p.mmap size)).0) (sym no_wrap)
          (from_region (p.mmap (n + 16777216)) active refl)
    from_pool (some pool) active = sound

    from_active :
        (b : Bool)
        → h.active ≡ b
        → IsSound
            (if◌then◌else◌ {A = Hypervisor × Option HvError × List Call}
              (not b)
              (h, some vm_not_active, [])
              (unless_pool p n h h.pool)).0
    from_active true active = from_pool h.pool active
    from_active false active = sound

destroy_vm-IsSound : (h : Hypervisor) → IsSound h → IsSound (destroy_vm h).0
unfolding destroy_vm
destroy_vm-IsSound h sound = go h.active
  where
    go :
        (b : Bool)
        → IsSound
            (if◌then◌else◌ {A = Hypervisor × List Call}
              (not b)
              (h, [])
              (record h { active = false; pool = none }, release h.pool ++ vm_destroy ∷ [])).0
    go true = tt
    go false = sound

-- Whatever the operations, in whatever order and with whatever failures, the pool stays well formed
-- and exists only beside a virtual machine. The sizes are below 2^62, and a region that `mmap` gives
-- lies in the address space.
pub run-IsSound :
    (p : Platform) (ops : List Operation) (h : Hypervisor)
    → MapsRegions p
    → All IsSmall ops
    → IsSound h
    → IsSound (run p ops h)
unfolding run
run-IsSound p [] h regions small sound = sound
run-IsSound p (create ∷ ops) h regions (s, small) sound =
    run-IsSound p ops _ regions small (create_vm-IsSound p h sound)
run-IsSound p (allocate n ∷ ops) h regions (s, small) sound =
    run-IsSound p ops _ regions small (allocate_pool-IsSound p n h regions s sound)
run-IsSound p (alloc n ∷ ops) h regions (s, small) sound =
    run-IsSound p ops _ regions small (alloc_buffer-IsSound n h s sound)
run-IsSound p (destroy ∷ ops) h regions (s, small) sound =
    run-IsSound p ops _ regions small (destroy_vm-IsSound h sound)
