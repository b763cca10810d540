-- ===== src/Core/Alloc/Calloc.antt =====
-- `core_calloc` (core/alloc.c) of a small object.
use switch_os.Base.{
  ℕ, zero, suc, ◌*◌, ◌%◌, ◌^◌, ◌≤◌, ◌<◌, ◌≡◌, ◌≢◌, refl, inl, inr, false, some, ◌==◌, arith,
}
use switch_os.Core.Alloc.{Heap, block_size, clear, core_malloc, core_calloc}
use switch_os.Core.Alloc.Blocks.{Laid, Filed}
use switch_os.Core.Alloc.FreeList.{Lists, Tracked}
use switch_os.Core.Alloc.Operations.{Chosen, core_malloc-Allocated}

module _ (buffer : ℕ → ℕ) (laid : Laid buffer) (h : Heap) (free : Lists) where
  -- A zeroed block from the list of the allocator with the smallest blocks.
  pub record Zeroed (count size ptr : ℕ) (h' : Heap) : Type 0 where
    pub malloc : core_malloc (count * size) h ≡ (ptr, h')
    pub calloc :
        core_calloc count size h ≡ (ptr, record h' { mem = clear h'.mem ptr (count * size) })
    pub some_block : ptr ≢ 0
    pub block : Filed buffer 0 ptr

  pub smallest : (size i : ℕ) → Chosen 0 size (some i) → size ≤ 32 → i ≡ 0
  smallest size zero c small = refl
  smallest size (suc i) c small =
      absurd (let l : block_size 0 < size = c.2 0 (omega arith) (omega arith) in omega (arith, l))

  calloc_runs :
      (count size total ptr : ℕ) (h' : Heap)
      → count * size ≡ total
      → total % 2 ^ 64 ≡ total
      → core_malloc total h ≡ (ptr, h')
      → (ptr == 0) ≡ false
      → core_calloc count size h ≡ (ptr, record h' { mem = clear h'.mem ptr total })
  unfolding core_calloc
  calloc_runs count size total ptr h' e f g k = rw (e, f, g, k)

  pub core_calloc-Zeroed :
      (count size : ℕ)
      → Tracked buffer h free
      → 0 < free.count 0
      → count * size ≤ 32
      → (ptr : ℕ) × (h' : Heap) × Zeroed count size ptr h'
  core_calloc-Zeroed count size t more small =
      elim (core_malloc-Allocated buffer laid h free (count * size) t) [
        | inl (e, c) ↦ absurd (let l = c 0 (omega arith) (omega arith) in omega (arith, l, small))
        | inr (i, inl (e, c, none_free)) ↦
            let i≡0 = smallest (count * size) i c small in
            absurd (let z : free.count 0 ≡ 0 = rw i≡0 at none_free in omega (arith, z, more))
        | inr (i, inr (ptr, h', e, ne, got)) ↦
            let i≡0 = smallest (count * size) i got.chosen small in
            (
              ptr,
              h',
              record {
                malloc = e;
                calloc =
                    calloc_runs count size (count * size) ptr h' refl (omega (arith, small)) e
                      (ground (arith, ne));
                some_block = ne;
                block = rw i≡0 at got.block;
              },
            )
      ]
