-- ===== src/Core/Virtio/Blk/Guards.antt =====
-- What core/drivers/virtio/virtio_blk.c refuses and what it does not check.
use switch_os.Base.{
  ℕ, zero, suc, ◌+◌, ◌%◌, ◌^◌, ◌≤◌, ◌≡◌, ◌≢◌, refl, true, false, ltb, leb, ◌==◌, none, arith,
}
use switch_os.Base.Action.{ok, invalid, fault}
use switch_os.Core.Alloc.{
  Heap, core_free, find_allocator_for_allocation, allocation_loop, free_to, allocators,
}
use switch_os.Core.Alloc.Blocks.{Laid}
use switch_os.Core.Disk.{virtio_blk_sector_size}
use switch_os.Core.Virtio.{
  Queue, free_queue_desc, queue_desc_at, see_used, pop_used_virtio_queue,
  is_unseen_used_virtio_queue,
}
use switch_os.Core.Virtio.Blk.{
  Machine, Device, release, request_virtio_blk, validate_used_response, wait_loop,
  consume_response_virtio_blk,
}

module _ (buffer : ℕ → ℕ) (laid : Laid buffer) where
  nowhere : (k i : ℕ) → i + k ≡ allocators → allocation_loop buffer k i 0 ≡ none
  unfolding allocation_loop
  nowhere zero i e = refl
  nowhere (suc k) i e =
      let p = (laid.placed i (omega arith)).0 in
      let f : leb (buffer i) 0 ≡ false = ground (arith, p) in rw f (nowhere k (suc i) (omega arith))

  -- `core_free(NULL)` does nothing.
  pub core_free-null : (h : Heap) → core_free buffer 0 h ≡ h
  unfolding core_free find_allocator_for_allocation free_to
  core_free-null h = rw (nowhere allocators 0 refl) refl

module _ {D : Type 0} (buffer : ℕ → ℕ) (device : Device D) where
  unaligned_runs :
      (type sector data_at size : ℕ) (s : Machine D)
      → (size % virtio_blk_sector_size == 0) ≡ false
      → core_free buffer 0 s.heap ≡ s.heap
      → request_virtio_blk buffer device type sector data_at size s ≡ (invalid, s)
  unfolding request_virtio_blk release free_queue_desc
  unaligned_runs type sector data_at size s e f = rw (e, f) refl

  -- A request for a part of a sector is refused and changes nothing.
  pub request_virtio_blk_unaligned :
      (laid : Laid buffer) (type sector data_at size : ℕ) (s : Machine D)
      → size % virtio_blk_sector_size ≢ 0
      → request_virtio_blk buffer device type sector data_at size s ≡ (invalid, s)
  request_virtio_blk_unaligned laid type sector data_at size s odd =
      unaligned_runs type sector data_at size s (ground (arith, odd))
        (core_free-null buffer laid s.heap)

  outside_runs :
      (s u : Machine D) (fuel i len : ℕ)
      → wait_loop buffer device fuel s ≡ (ok tt, u)
      → pop_used_virtio_queue u.queue ≡ (ok (i, len), see_used u.queue)
      → queue_desc_at i (see_used u.queue) ≡ (fault, see_used u.queue)
      → consume_response_virtio_blk buffer device fuel s
        ≡ (fault, record u { queue = see_used u.queue })
  unfolding consume_response_virtio_blk validate_used_response
  outside_runs s u fuel i len a b c = rw (a, b, c)

  pop_runs :
      (q : Queue)
      → is_unseen_used_virtio_queue q ≡ true
      → let elem = q.used_ring (q.seen_used % q.size) in
        pop_used_virtio_queue q ≡ (ok (elem.id % 2 ^ 16, elem.len), see_used q)
  unfolding pop_used_virtio_queue
  pop_runs q e = rw e

  queue_desc_at_outside : (i : ℕ) (q : Queue) → q.size ≤ i → queue_desc_at i q ≡ (fault, q)
  unfolding queue_desc_at
  queue_desc_at_outside i q p = let e : ltb i q.size ≡ false = ground arith in rw e

  -- The index that the device puts on the used ring is not checked: an index past the table, in
  -- its low 16 bits, makes the driver read a descriptor outside the table.
  pub consume_response_virtio_blk_outside :
      (s u : Machine D) (fuel : ℕ)
      → wait_loop buffer device fuel s ≡ (ok tt, u)
      → u.queue.seen_used ≢ u.queue.used_idx
      → u.queue.size ≤ (u.queue.used_ring (u.queue.seen_used % u.queue.size)).id % 2 ^ 16
      → consume_response_virtio_blk buffer device fuel s
        ≡ (fault, record u { queue = see_used u.queue })
  consume_response_virtio_blk_outside s u fuel wait unseen past =
      outside_runs s u fuel _ _ wait (pop_runs u.queue (ground (arith, unseen)))
        (queue_desc_at_outside _ (see_used u.queue) past)
