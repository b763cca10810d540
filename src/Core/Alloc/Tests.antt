-- ===== src/Core/Alloc/Tests.antt =====
-- Heaps on which the theorems about the allocators are applied.
use switch_os.Base.{
  ℕ, ◌<◌, ◌≤◌, ◌≡◌, ◌≢◌, refl, ◌⊎◌, inl, inr, ◌==◌, if◌then◌else◌, Bool-cases, none, some, arith,
}
use switch_os.Base.Action.{ok}
use switch_os.Core.Alloc.{
  Heap, allocators, set_head, core_malloc, core_free, core_init_allocators, malloc_from,
  find_allocator_for_size, size_loop,
}
use switch_os.Core.Alloc.Example.{buffer, buffer-Laid}
use switch_os.Core.Alloc.Blocks.{IsBlock, IsBlock-Filed, Found}
use switch_os.Core.Alloc.FreeList.{Lists, FreeList, Tracked, NotFree, pushed, popped}
use switch_os.Core.Alloc.Operations.{Chosen, Allocated, core_malloc-Allocated}
use switch_os.Core.Alloc.Freeing.{Freed, core_free-Freed, core_free-core_malloc}
use switch_os.Core.Alloc.Ready.{Ready, core_init_allocators-Ready}
use switch_os.Core.Alloc.Adjacent.{core_free_adjacent}

-- Memory is zero, and only the first block of allocator 2 is free.
abbrev one : Heap
one = record { mem = λ x. 0; head = λ i. if i == 2 then buffer 2 else 0 }

abbrev one_free : Lists
one_free = record {
  count = λ i. if i == 2 then 1 else 0;
  at = λ i. if i == 2 then (λ k. if k == 0 then buffer 2 else 0) else (λ k. 0);
}

one-Tracked : Tracked buffer one one_free
one-Tracked = record { lists = lists; unshared = unshared }
  where
    lists :
        (i : ℕ)
        → i < allocators
        → FreeList buffer i one.mem (one.head i) (one_free.count i) (one_free.at i)
    lists i p = elim (Bool-cases (i == 2)) [
      | inl e ↦
          let i≡2 : i ≡ 2 = ground arith in
          rw i≡2 (record {
            first = refl;
            last = refl;
            link = λ k q. let k≡0 : k ≡ 0 = omega arith in rw k≡0;
            block = λ k q.
                let k≡0 : k ≡ 0 = omega arith in
                rw k≡0 (
                  IsBlock-Filed buffer-Laid 2 (buffer 2) (omega arith)
                    (record { from = omega arith; upto = omega arith; whole = refl }));
            different = λ k l q r. absurd (omega (arith, q, r));
          })
      | inr e ↦ rw e (record {
        first = refl;
        last = refl;
        link = λ k q. absurd (omega (arith, q));
        block = λ k q. absurd (omega (arith, q));
        different = λ k l q r. absurd (omega (arith, r));
      })
    ]

    unshared :
        (i j k l : ℕ)
        → i < allocators
        → j < allocators
        → i ≢ j
        → k < one_free.count i
        → l < one_free.count j
        → one_free.at i k ≢ one_free.at j l
    unshared i j k l p q ne u v e = ground (arith, ne, u, v)

core_init_allocators-Ready_example :
    (h' : Heap) × (core_init_allocators buffer one ≡ (ok tt, h'))
    × (free : Lists) × Ready buffer buffer-Laid h' free
core_init_allocators-Ready_example = core_init_allocators-Ready buffer buffer-Laid one

core_malloc-Allocated_example :
    ((core_malloc 100 one ≡ (0, one)) × Chosen 0 100 none)
    ⊎ ((i : ℕ) × (((core_malloc 100 one ≡ (0, one))
            × Chosen 0 100 (some i)
            × (one_free.count i ≡ 0))
          ⊎ ((ptr : ℕ) × (h' : Heap) × (core_malloc 100 one ≡ (ptr, h'))
              × (ptr ≢ 0)
              × Allocated buffer buffer-Laid one one_free 100 i ptr h')))
core_malloc-Allocated_example =
    core_malloc-Allocated buffer buffer-Laid one one_free 100 one-Tracked

-- The first block of allocator 3, which begins where the buffer of allocator 2 ends.
abbrev used : ℕ
used = buffer 3

used-NotFree : NotFree buffer one_free used
used-NotFree i k p q e = ground (arith, q, e)

core_free-Freed_example :
    (o : ℕ) × Found buffer-Laid o 3 used
    × Freed buffer buffer-Laid one one_free o used (core_free buffer used one)
core_free-Freed_example =
    core_free-Freed buffer buffer-Laid one one_free 3 used (omega arith)
      (record { from = omega arith; upto = omega arith; whole = refl }) used-NotFree one-Tracked

abbrev taken : Heap
taken = set_head one 2 0

one_malloc : core_malloc 100 one ≡ (buffer 2, taken)
unfolding core_malloc malloc_from find_allocator_for_size size_loop
one_malloc = refl

core_free-core_malloc_example :
    (i o : ℕ) × Chosen 0 100 (some i)
    × (one_free.at i 0 ≡ buffer 2)
    × (o ≤ i)
    × Tracked buffer (core_free buffer (buffer 2) taken) (pushed o (buffer 2) (popped i one_free))
core_free-core_malloc_example =
    core_free-core_malloc buffer buffer-Laid one taken taken one_free 100 (buffer 2) one-Tracked
      one_malloc (omega arith) (λ j. refl) (λ x o. refl)

core_free_adjacent_example :
    IsBlock buffer 1 (buffer 1)
    × ((core_free buffer (buffer 1) one).head 0 ≡ buffer 1)
    × ((core_free buffer (buffer 1) one).head 1 ≡ one.head 1)
core_free_adjacent_example = core_free_adjacent buffer one refl
