-- ===== src/Hypervisor/Mapped.antt =====
-- The pool that `allocate_pool` makes, and what of it is mapped in the virtual machine.
use d_inference.Prelude.{
  ◌≡◌, refl, sym, ap, ◌∙◌, ◌⊎◌, inl, inr, Bool, true, false, not, none, some, List, [], arith,
  if◌then◌else◌, ℕ, ◌%◌, ◌+◌, ◌≤◌, ◌*◌, ◌<◌, ◌-◌, ◌/◌,
}
use d_inference.Hypervisor.Pool.{
  word, word_sub, chunk_align, PoolState, Hypervisor, Platform, Call, map_pool, allocate_pool,
  vm_not_active, unless_pool, with_region,
}
use d_inference.Hypervisor.Chunks.{
  chunk_align-bounds, word_sub_lem, chunk_calls, IsMapping, map_chunks-IsMapping,
}

-- The pool lies on chunks, inside its region, and has given away no more than is mapped.
pub record IsPool (p : PoolState) : Type 0 where
  pub aligned : p.aligned_base % 16777216 ≡ 0
  pub starts : p.pool_base ≤ p.aligned_base
  pub inside : p.aligned_base + p.mapped_chunks * 16777216 ≤ p.pool_base + p.pool_mmap_size
  pub bounded : p.pool_base + p.pool_mmap_size < 18446744073709551616
  pub small : p.pool_mmap_size < 9223372036854775808
  pub within : p.alloc_offset ≤ p.mapped_chunks * 16777216

-- The pool that `map_pool` makes of a region: nothing of it is given away; its chunks are mapped one
-- after another, to guest addresses without gaps; and it is as large as was asked for, up to a chunk,
-- or the next chunk was refused.
abbrev pub IsMapped : Platform → (pool_bytes : ℕ) → PoolState × List Call → Type 0
IsMapped p pool_bytes (pool, calls) =
    IsPool pool
    × (pool.alloc_offset ≡ 0)
    × (calls ≡ chunk_calls pool.aligned_base 4294967296 pool.mapped_chunks)
    × ((pool_bytes < pool.mapped_chunks * 16777216 + 16777216)
        ⊎ (p.maps (pool.aligned_base + pool.mapped_chunks * 16777216)
              (4294967296 + pool.mapped_chunks * 16777216)
            ≡ false))

region-IsMapped :
    (p : Platform) (pool_bytes pool_addr a u : ℕ) (r : ℕ × List Call)
    → (pool_addr ≤ a) × (a ≤ pool_addr + 16777215) × (a % 16777216 ≡ 0)
    → u ≡ pool_bytes + 16777216 - (a - pool_addr)
    → pool_bytes < 4611686018427387904
    → pool_addr + (pool_bytes + 16777216) < 18446744073709551616
    → IsMapping p a (u / 16777216) 0 4294967296 0 r
    → IsMapped p pool_bytes (
      record {
        pool_base = pool_addr;
        pool_mmap_size = pool_bytes + 16777216;
        aligned_base = a;
        usable_size = u;
        mapped_chunks = r.0;
        alloc_offset = 0;
      },
      r.1,
    )
region-IsMapped p pool_bytes pool_addr a u (n, calls) bounds usable small inside
      (k, count, fewer, are, why) =
    (
      record {
        aligned = bounds.2;
        starts = bounds.0;
        inside = omega (arith, bounds.0, bounds.1, usable, inside, count, fewer);
        bounded = inside;
        small = omega (arith, small);
        within = omega arith;
      },
      refl,
      are
          ∙ ap (λ (b : ℕ). chunk_calls b 4294967296 k) from_start
          ∙ ap (chunk_calls a 4294967296) (sym counted),
      elim why [
        | inl all ↦ inl (omega (arith, all, count, usable, bounds.0, bounds.1))
        | inr refused ↦ inr (
            ap (λ (j : ℕ). p.maps (a + j * 16777216) (4294967296 + j * 16777216)) counted
            ∙ ap (λ (j : ℕ). p.maps (a + j * 16777216) (4294967296 + k * 16777216)) (omega arith)
            ∙ refused)
      ],
    )
  where
    from_start : a + 0 * 16777216 ≡ a
    from_start = omega arith

    counted : n ≡ k
    counted = omega (arith, count)

pub map_pool-IsMapped :
    (p : Platform) (pool_bytes pool_addr : ℕ)
    → pool_bytes < 4611686018427387904
    → pool_addr + (pool_bytes + 16777216) < 18446744073709551616
    → IsMapped p pool_bytes (map_pool p (pool_bytes + 16777216) pool_addr)
unfolding map_pool
map_pool-IsMapped p pool_bytes pool_addr small inside =
    let bounds = chunk_align-bounds pool_addr (omega (arith, inside)) in
    let usable = usable_lem (chunk_align pool_addr) bounds.0 bounds.1 in
    region-IsMapped p pool_bytes pool_addr (chunk_align pool_addr) _ _ bounds usable small inside
      (map_chunks-IsMapping p (chunk_align pool_addr) _ 0 4294967296 0 (few _ _ usable))
  where
    usable_lem :
        (a : ℕ)
        → pool_addr ≤ a
        → a ≤ pool_addr + 16777215
        → word_sub (pool_bytes + 16777216) (word_sub a pool_addr)
          ≡ pool_bytes + 16777216 - (a - pool_addr)
    usable_lem a low high =
        ap (word_sub (pool_bytes + 16777216))
          (word_sub_lem a pool_addr low (omega (arith, high, inside)))
        ∙ word_sub_lem (pool_bytes + 16777216) (a - pool_addr) (omega (arith, high))
            (omega (arith, small))

    few :
        (u waste : ℕ)
        → u ≡ pool_bytes + 16777216 - waste
        → 4294967296 + u / 16777216 * 16777216 < 18446744073709551616
    few u waste e = omega (arith, e, small)

-- `mmap` gives a region of the address space.
abbrev pub MapsRegions : Platform → Type 0
MapsRegions p = (size addr : ℕ) → p.mmap size ≡ some addr → addr + size < 18446744073709551616

-- With a virtual machine, without a pool and with a region from `mmap`, `allocate_pool` succeeds with
-- a pool in that region: the pool lies on chunks, nothing of it is given away, its chunks are mapped
-- one after another to guest addresses without gaps, and unless the virtual machine refuses a chunk
-- the pool is less than a chunk smaller than was asked for. The size is below 2^62, and a region that
-- `mmap` gives lies in the address space.
pub allocate_pool-IsMapped :
    (p : Platform) (pool_bytes pool_addr : ℕ) (h : Hypervisor)
    → MapsRegions p
    → pool_bytes < 4611686018427387904
    → h.active ≡ true
    → h.pool ≡ none
    → p.mmap (pool_bytes + 16777216) ≡ some pool_addr
    → (pool : PoolState) × (calls : List Call) × (allocate_pool p pool_bytes h
        ≡ (record h { pool = some pool }, none, calls))
      × (pool.pool_base ≡ pool_addr)
      × IsMapped p pool_bytes (pool, calls)
unfolding allocate_pool map_pool
allocate_pool-IsMapped p pool_bytes pool_addr h regions small active empty region =
    let made = map_pool p (pool_bytes + 16777216) pool_addr in
    (
      made.0,
      made.1,
      ap
            (λ (b : Bool).
              if not b then (h, some vm_not_active, []) else unless_pool p pool_bytes h h.pool)
            active
          ∙ ap (unless_pool p pool_bytes h) empty
          ∙ ap (λ (size : ℕ). with_region p h size (p.mmap size)) no_wrap
          ∙ ap (with_region p h (pool_bytes + 16777216)) region,
      refl,
      map_pool-IsMapped p pool_bytes pool_addr small
          (regions (pool_bytes + 16777216) pool_addr region),
    )
  where
    no_wrap : word (pool_bytes + 16777216) ≡ pool_bytes + 16777216
    no_wrap = omega (arith, small)
