-- ===== src/Hypervisor/Teardown.antt =====
-- What `destroy_vm` takes back.
use d_inference.Prelude.{
  ◌≡◌, refl, sym, ap, ◌∙◌, true, false, none, some, List, [], ◌∷◌, ◌++◌, arith, ℕ, ◌<◌, ◌*◌, ◌+◌,
  suc, zero,
}
use d_inference.Hypervisor.Pool.{
  word, chunk_size, PoolState, Hypervisor, Platform, Call, destroy_vm, vm_destroy,
}
use d_inference.Hypervisor.Pool.{unmap, munmap, vm_destroy, mapped, unmap_chunks}
use d_inference.Hypervisor.Mapped.{IsMapped}
use d_inference.Hypervisor.Chunks.{chunk_calls}

-- The calls that take back what some calls have mapped.
abbrev pub undo : List Call → List Call
undo [] = []
undo (mapped chunk gpa ∷ calls) = unmap gpa ∷ undo calls
undo (unmap gpa ∷ calls) = undo calls
undo (munmap addr size ∷ calls) = undo calls
undo (vm_destroy ∷ calls) = undo calls

unmap_chunks-undo :
    (count chunk gpa : ℕ)
    → gpa + count * 16777216 < 18446744073709551616
    → unmap_chunks count gpa ≡ undo (chunk_calls chunk gpa count)
unfolding unmap_chunks
unmap_chunks-undo zero chunk gpa h = refl
unmap_chunks-undo (suc count) chunk gpa h =
    ap (λ (cs : List Call). unmap gpa ∷ cs)
      (ap (unmap_chunks count) no_wrap
        ∙ unmap_chunks-undo count (chunk + 16777216) (gpa + 16777216) (omega (arith, h)))
  where
    no_wrap : word (gpa + chunk_size) ≡ gpa + 16777216
    no_wrap = omega (arith, h)

-- Destroying the virtual machine, which has a pool, unmaps exactly the chunks that `map_pool` mapped
-- for it, at their guest addresses; then it gives the pool's region back, as large as it was asked
-- for; and then it destroys the virtual machine. No pool is left. The pool's size was below 2^62, and
-- since it was made only allocations have changed it.
destroy_vm-undo :
    (p : Platform) (pool_bytes offset : ℕ) (pool : PoolState) (calls : List Call) (h : Hypervisor)
    → pool_bytes < 4611686018427387904
    → IsMapped p pool_bytes (pool, calls)
    → h ≡ record { active = true; pool = some (record pool { alloc_offset = offset }) }
    → destroy_vm h ≡ (
      record { active = false; pool = none },
      (undo calls ++ munmap pool.pool_base pool.pool_mmap_size ∷ []) ++ vm_destroy ∷ [],
    )
unfolding destroy_vm
destroy_vm-undo p pool_bytes offset pool calls h small (ok, fresh, are, why) is =
    ap destroy_vm is
    ∙ ap
        (λ (cs : List Call). (
          record { active = false; pool = none },
          (cs ++ munmap pool.pool_base pool.pool_mmap_size ∷ []) ++ vm_destroy ∷ [],
        ))
        (unmap_chunks-undo pool.mapped_chunks pool.aligned_base 4294967296
            (omega (arith, ok.inside, ok.starts, ok.small))
          ∙ ap undo (sym are))
