-- ===== src/Core/Alloc/Adjacent.antt =====
-- Buffers of core/alloc.c that touch.
use switch_os.Base.{ℕ, suc, ◌+◌, ◌≤◌, ◌≡◌, true, leb, some, arith}
use switch_os.Core.Alloc.{
  Heap, buf_size, allocation_loop, find_allocator_for_allocation, free_to, core_free,
}
use switch_os.Core.Alloc.Blocks.{IsBlock}

module _ (buffer : ℕ → ℕ) where
  allocation_loop-first :
      (k i a : ℕ)
      → buffer i ≤ a
      → a ≤ buffer i + buf_size i
      → allocation_loop buffer (suc k) i a ≡ some i
  unfolding allocation_loop
  allocation_loop-first k i a l u =
      let p : leb (buffer i) a ≡ true = ground arith in
      let q : leb a (buffer i + buf_size i) ≡ true = ground arith in rw (p, q)

  -- When the second buffer begins where the first one ends, its first block, which is a block of
  -- the second allocator, is put by `core_free` in the list of the first one, and the list of the
  -- second one stays as it was.
  pub core_free_adjacent :
      (h : Heap)
      → buffer 0 + buf_size 0 ≡ buffer 1
      → IsBlock buffer 1 (buffer 1)
        × ((core_free buffer (buffer 1) h).head 0 ≡ buffer 1)
        × ((core_free buffer (buffer 1) h).head 1 ≡ h.head 1)
  unfolding core_free find_allocator_for_allocation free_to
  core_free_adjacent h e =
      let found = allocation_loop-first 4 0 (buffer 1) (omega (arith, e)) (omega (arith, e)) in
      (record { from = omega arith; upto = omega arith; whole = ground arith }, rw found, rw found)
