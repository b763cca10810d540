-- ===== src/Core/Alloc/Example.antt =====
-- A layout of the buffers of core/alloc.c, for examples.
use switch_os.Base.{ℕ, ◌<◌, ◌≡◌, ◌≢◌, refl, inl, inr, ◌==◌, if◌then◌else◌, Bool-cases, arith}
use switch_os.Core.Alloc.{Heap, allocators}
use switch_os.Core.Alloc.Blocks.{Laid, IsBlock-Filed}
use switch_os.Core.Alloc.FreeList.{Lists, FreeList, Tracked}

-- Buffers that touch, in the order of the allocators.
abbrev pub buffer : ℕ → ℕ
buffer i =
    if i == 0
    then 0x41010000
    else if i == 1
    then 0x41030000
    else if i == 2
    then 0x41040000
    else if i == 3
    then 0x41060000
    else 0x410a0000

pub buffer-Laid : Laid buffer
buffer-Laid = record { placed = λ i p. ground arith; spaced = λ i j p q ne. ground (arith, ne) }

-- Memory is zero, and only the first block of allocator 0 is free.
abbrev pub small_block : Heap
small_block = record { mem = λ x. 0; head = λ i. if i == 0 then buffer 0 else 0 }

abbrev pub small_free : Lists
small_free = record {
  count = λ i. if i == 0 then 1 else 0;
  at = λ i. if i == 0 then (λ k. if k == 0 then buffer 0 else 0) else (λ k. 0);
}

pub small_block-Tracked : Tracked buffer small_block small_free
small_block-Tracked = record { lists = lists; unshared = unshared }
  where
    lists :
        (i : ℕ)
        → i < allocators
        → FreeList buffer i small_block.mem
            (small_block.head i)
            (small_free.count i)
            (small_free.at i)
    lists i p = elim (Bool-cases (i == 0)) [
      | inl e ↦
          let i≡0 : i ≡ 0 = ground arith in
          rw i≡0 (record {
            first = refl;
            last = refl;
            link = λ k q. let k≡0 : k ≡ 0 = omega arith in rw k≡0;
            block = λ k q.
                let k≡0 : k ≡ 0 = omega arith in
                rw k≡0 (
                  IsBlock-Filed buffer-Laid 0 (buffer 0) (omega arith)
                    (record { from = omega arith; upto = omega arith; whole = refl }));
            different = λ k l q r. absurd (omega (arith, q, r));
          })
      | inr e ↦ rw e (record {
        first = refl;
        last = refl;
        link = λ k q. absurd (omega (arith, q));
        block = λ k q. absurd (omega (arith, q));
        different = λ k l q r. absurd (omega (arith, r));
      })
    ]

    unshared :
        (i j k l : ℕ)
        → i < allocators
        → j < allocators
        → i ≢ j
        → k < small_free.count i
        → l < small_free.count j
        → small_free.at i k ≢ small_free.at j l
    unshared i j k l p q ne u v e = ground (arith, ne, u, v)
