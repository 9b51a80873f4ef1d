-- ===== src/Hypervisor/Pool.antt =====
-- The pool of `hypervisor.rs` and its operations, as they are compiled for macOS in a release build,
-- where `usize` and `u64` wrap around.
use d_inference.Prelude.{
  ◌⊎◌, inl, inr, Bool, true, false, not, Option, none, some, List, [], ◌∷◌, ◌++◌, ltb, leb, ◌==◌,
  if◌then◌else◌, ℕ, suc, ◌%◌, ◌*◌, ◌+◌, ◌-◌, zero, ◌/◌,
}

abbrev pub word : ℕ → ℕ
word n = n % 18446744073709551616

abbrev pub word_sub : ℕ → ℕ → ℕ
word_sub m n = word (m + 18446744073709551616 - n)

abbrev pub chunk_size : ℕ
chunk_size = 16777216

abbrev pub gpa_base : ℕ
gpa_base = 4294967296

-- `(n + 4095) & !4095`, and the same for chunks.
abbrev pub page_align : ℕ → ℕ
page_align n = word (n + 4095) / 4096 * 4096

abbrev pub chunk_align : ℕ → ℕ
chunk_align n = word (n + 16777215) / 16777216 * 16777216

pub record PoolState : Type 0 where
  pub pool_base : ℕ
  pub pool_mmap_size : ℕ
  pub aligned_base : ℕ
  pub usable_size : ℕ
  pub mapped_chunks : ℕ
  pub alloc_offset : ℕ

-- The statics `ACTIVE` and `POOL`.
pub record Hypervisor : Type 0 where
  pub active : Bool
  pub pool : Option PoolState

-- What the system answers: the code of `hv_vm_create`, the address that `mmap` gives for a size, and
-- whether `hv_vm_map` maps an address to one of the guest.
pub record Platform : Type 0 where
  pub create_code : ℕ
  pub mmap : ℕ → Option ℕ
  pub maps : ℕ → ℕ → Bool

-- The calls that change the system's memory: a chunk that was mapped, with its guest address, and the
-- calls of the teardown.
pub data Call : Type 0 where
  mapped : ℕ → ℕ → Call
  unmap : ℕ → Call
  munmap : ℕ → ℕ → Call
  vm_destroy : Call

pub data HvError : Type 0 where
  create_failed : ℕ → HvError
  vm_not_active : HvError
  mmap_failed : HvError
  not_initialized : HvError
  exhausted : ℕ → ℕ → HvError

unfoldable pub create_vm : Platform → Hypervisor → Hypervisor × Option HvError
create_vm p h =
    if h.active
    then (h, none)
    else if p.create_code == 0
    then (record h { active = true }, none)
    else (h, some (create_failed p.create_code))

-- The loop over the chunks that are left, from chunk `i` on.
unfoldable pub map_chunks : Platform → ℕ → (rest i gpa mapped_chunks : ℕ) → ℕ × List Call
map_chunks p aligned_base zero i gpa mapped_chunks = (mapped_chunks, [])
map_chunks p aligned_base (suc rest) i gpa mapped_chunks =
    let (n, calls) =
      map_chunks p aligned_base rest (i + 1) (word (gpa + chunk_size)) (mapped_chunks + 1) in
    let chunk = aligned_base + i * chunk_size in
    if p.maps chunk gpa then (n, mapped chunk gpa ∷ calls) else (mapped_chunks, [])

-- A region of the size has been mapped at the address.
unfoldable pub map_pool : Platform → (mmap_size pool_addr : ℕ) → PoolState × List Call
unfolding map_chunks
map_pool p mmap_size pool_addr =
    let aligned_addr = chunk_align pool_addr in
    let usable_size = word_sub mmap_size (word_sub aligned_addr pool_addr) in
    let (mapped_chunks, calls) =
      map_chunks p aligned_addr (usable_size / chunk_size) 0 gpa_base 0 in
    (
      record {
        pool_base = pool_addr;
        pool_mmap_size = mmap_size;
        aligned_base = aligned_addr;
        usable_size = usable_size;
        mapped_chunks = mapped_chunks;
        alloc_offset = 0;
      },
      calls,
    )

abbrev pub with_region :
    Platform → Hypervisor → ℕ → Option ℕ → Hypervisor × Option HvError × List Call
with_region p h mmap_size none = (h, some mmap_failed, [])
with_region p h mmap_size (some pool_addr) =
    let (pool, calls) = map_pool p mmap_size pool_addr in
    (record h { pool = some pool }, none, calls)

abbrev pub unless_pool :
    Platform → ℕ → Hypervisor → Option PoolState → Hypervisor × Option HvError × List Call
unless_pool p pool_bytes h none =
    let mmap_size = word (pool_bytes + chunk_size) in with_region p h mmap_size (p.mmap mmap_size)
unless_pool p pool_bytes h (some pool) = (h, none, [])

unfoldable pub allocate_pool : Platform → ℕ → Hypervisor → Hypervisor × Option HvError × List Call
unfolding map_pool
allocate_pool p pool_bytes h =
    if not h.active then (h, some vm_not_active, []) else unless_pool p pool_bytes h h.pool

-- The part of `alloc_buffer` that has the pool's lock.
abbrev pub carve : ℕ → Hypervisor → Option PoolState → Hypervisor × (HvError ⊎ ℕ)
carve size h none = (h, inl not_initialized)
carve size h (some pool) =
    let aligned_offset = page_align pool.alloc_offset in
    let mapped_size = word (pool.mapped_chunks * chunk_size) in
    if ltb mapped_size (word (aligned_offset + size))
    then (h, inl (exhausted size (mapped_size - aligned_offset)))
    else (
      record h { pool = some (record pool { alloc_offset = word (aligned_offset + size) }) },
      inr (pool.aligned_base + aligned_offset),
    )

unfoldable pub alloc_buffer : ℕ → Hypervisor → Hypervisor × (HvError ⊎ ℕ)
alloc_buffer size h = if not h.active then (h, inl vm_not_active) else carve size h h.pool

abbrev pub has_room : ℕ → Option PoolState → Bool
has_room size none = false
has_room size (some pool) =
    leb (word (page_align pool.alloc_offset + size)) (word (pool.mapped_chunks * chunk_size))

unfoldable pub pool_has_capacity : ℕ → Hypervisor → Bool
pool_has_capacity size h = has_room size h.pool

unfoldable pub allocated_bytes : Hypervisor → ℕ
allocated_bytes h = elim h.pool [ none ↦ 0 | some pool ↦ pool.alloc_offset ]

unfoldable pub pool_capacity : Hypervisor → ℕ
pool_capacity h = elim h.pool [ none ↦ 0 | some pool ↦ word (pool.mapped_chunks * chunk_size) ]

-- Unmap the chunks that are left, from the guest address on.
unfoldable pub unmap_chunks : (rest gpa : ℕ) → List Call
unmap_chunks zero gpa = []
unmap_chunks (suc rest) gpa = unmap gpa ∷ unmap_chunks rest (word (gpa + chunk_size))

abbrev pub release : Option PoolState → List Call
release none = []
release (some pool) =
    unmap_chunks pool.mapped_chunks gpa_base ++ munmap pool.pool_base pool.pool_mmap_size ∷ []

unfoldable pub destroy_vm : Hypervisor → Hypervisor × List Call
unfolding unmap_chunks
destroy_vm h =
    if not h.active
    then (h, [])
    else (record h { active = false; pool = none }, release h.pool ++ vm_destroy ∷ [])
