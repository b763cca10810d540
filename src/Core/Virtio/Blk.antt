-- ===== src/Core/Virtio/Blk.antt =====
-- The requests of core/drivers/virtio/virtio_blk.c: a chain of three descriptors per request, which
-- the device answers on the used ring.
pub mod Chains
pub mod Sending
pub mod Answering
pub mod Consuming
pub mod Driver
pub mod Ramdisk
pub mod Failing
pub mod Guards
use switch_os.Base.{ℕ, zero, suc, ◌+◌, ◌-◌, ◌*◌, ◌/◌, ◌%◌, ◌^◌, Bool, not, ◌==◌, if◌then◌else◌}
use switch_os.Base.Action.{
  ⊤, Action, Result, ok, invalid, fault, hang, pure, fail, gets, modify, check, ◌>>=◌, ◌>>◌,
  on_invalid, dropped,
}
use switch_os.Base.Bytes.{Bytes, store}
use switch_os.Core.Alloc.{Heap, core_calloc, core_free}
use switch_os.Core.Disk.{virtio_blk_sector_size}
use switch_os.Core.Virtio.{
  Queue, Desc, UsedElem, virtio_invalid_desc, virtq_desc_f_next, virtq_desc_f_write, has_next,
  has_write, queue_desc_at, set_desc, alloc_queue_desc, free_queue_desc,
  is_unseen_used_virtio_queue, pop_used_virtio_queue,
}

abbrev pub virtio_blk_t_in : ℕ
virtio_blk_t_in = 0

abbrev pub virtio_blk_t_out : ℕ
virtio_blk_t_out = 1

abbrev pub virtio_blk_s_ok : ℕ
virtio_blk_s_ok = 0

abbrev pub virtio_blk_req_header_size : ℕ
virtio_blk_req_header_size = 16

abbrev pub virtio_blk_req_footer_size : ℕ
virtio_blk_req_footer_size = 1

-- What a request can touch: memory, the allocators with their buffers' memory, the queue, and the
-- device's own state.
pub record Machine (D : Type 0) : Type 0 where
  pub ram : Bytes
  pub heap : Heap
  pub queue : Queue
  pub dev : D

-- The device, which is not part of the source: the disk's content, its reaction to a store to the
-- notification address, and what it does between two reads of the used ring's index.
pub record Device (D : Type 0) : Type 0 where
  pub disk : D → Bytes
  pub notify : ℕ → ℕ → Machine D → Machine D
  pub poll : Machine D → Machine D

-- The stores to `header->type`, `header->sector` and `header->status`.
abbrev pub set_req_header : ℕ → ℕ → ℕ → Heap → Heap
set_req_header header type sector h = record h {
  mem = store 1 (store 8 (store 4 h.mem header type) (header + 8) sector) (header + 16) 0;
}

abbrev pub header_desc : ℕ → ℕ → Desc → Desc
header_desc header desc2 d = record {
  addr = header;
  len = virtio_blk_req_header_size;
  flags = virtq_desc_f_next;
  next = desc2;
}

abbrev pub data_desc : ℕ → ℕ → ℕ → ℕ → Desc → Desc
data_desc type data_at size desc3 d = record {
  addr = data_at;
  len = size % 2 ^ 32;
  flags =
      if type == virtio_blk_t_in then virtq_desc_f_next + virtq_desc_f_write else virtq_desc_f_next;
  next = desc3;
}

abbrev pub status_desc : ℕ → Desc → Desc
status_desc header d = record d {
  addr = (header + virtio_blk_req_header_size) % 2 ^ 64;
  len = virtio_blk_req_footer_size;
  flags = virtq_desc_f_write;
}

-- The chain goes into the available ring.
abbrev pub publish : ℕ → Queue → Queue
publish desc1 q = record q {
  avail_ring = λ j. if j == q.avail_idx % q.size then desc1 else q.avail_ring j;
  avail_idx = (q.avail_idx + 1) % 2 ^ 16;
}

-- `len` less what the write-only descriptors hold, wrapping around.
abbrev pub left_over : Desc → Desc → ℕ → ℕ
left_over d2 d3 len =
    let rest = (len + 2 ^ 32 - d3.len) % 2 ^ 32 in
    if has_write d2.flags then (rest + 2 ^ 32 - d2.len) % 2 ^ 32 else rest

module _ {D : Type 0} where
  abbrev pub with_queue : {A : Type 0} → Machine D → Result A × Queue → Result A × Machine D
  with_queue s (r, q) = (r, record s { queue = q })

  -- A step of the queue.
  abbrev pub in_queue : {A : Type 0} → Action Queue A → Action (Machine D) A
  in_queue m s = with_queue s (m s.queue)

  abbrev pub with_heap : Machine D → ℕ × Heap → Result ℕ × Machine D
  with_heap s (p, h) = (ok p, record s { heap = h })

  abbrev pub calloc_header : ℕ → ℕ → Action (Machine D) ℕ
  calloc_header count size s = with_heap s (core_calloc count size s.heap)

  abbrev pub put_req_header : ℕ → ℕ → ℕ → Machine D → Machine D
  put_req_header header type sector s = record s { heap = set_req_header header type sector s.heap }

  module _ (buffer : ℕ → ℕ) (device : Device D) where
    abbrev pub free_header_block : ℕ → Machine D → Machine D
    free_header_block ptr s = record s { heap = core_free buffer ptr s.heap }

    -- The cleanup of `request_virtio_blk`.
    unfoldable pub release : ℕ → ℕ → ℕ → ℕ → Action (Machine D) ⊤
    release header desc1 desc2 desc3 = do
      in_queue (free_queue_desc desc1)
      in_queue (free_queue_desc desc2)
      in_queue (free_queue_desc desc3)
      modify (free_header_block header)

    unfoldable pub send : ℕ → ℕ → ℕ → ℕ → ℕ → ℕ → ℕ → Action (Machine D) ⊤
    send type data_at size header desc1 desc2 desc3 = do
      in_queue (set_desc desc1 (header_desc header desc2))
      in_queue (set_desc desc2 (data_desc type data_at size desc3))
      in_queue (set_desc desc3 (status_desc header))
      in_queue (modify (publish desc1))
      modify (λ s. device.notify s.queue.notify_off s.queue.num s)

    unfoldable pub request_virtio_blk : ℕ → ℕ → ℕ → ℕ → Action (Machine D) ⊤
    request_virtio_blk type sector data_at size = do
      let none_yet = virtio_invalid_desc
      on_invalid (release 0 none_yet none_yet none_yet) (check (size % virtio_blk_sector_size == 0))
      header ← calloc_header 17 1
      on_invalid (release header none_yet none_yet none_yet) (check (not (header == 0)))
      modify (put_req_header header type sector)
      desc1 ← on_invalid (release header none_yet none_yet none_yet) (in_queue alloc_queue_desc)
      desc2 ← on_invalid (release header desc1 none_yet none_yet) (in_queue alloc_queue_desc)
      desc3 ← on_invalid (release header desc1 desc2 none_yet) (in_queue alloc_queue_desc)
      send type data_at size header desc1 desc2 desc3

    unfoldable pub read_virtio_blk : ℕ → ℕ → ℕ → Action (Machine D) ⊤
    read_virtio_blk sector data_at size = request_virtio_blk virtio_blk_t_in sector data_at size

    unfoldable pub write_virtio_blk : ℕ → ℕ → ℕ → Action (Machine D) ⊤
    write_virtio_blk sector data_at size = request_virtio_blk virtio_blk_t_out sector data_at size

    unfoldable pub validate_used_response : ℕ → ℕ → Action (Machine D) ⊤
    validate_used_response desc len = do
      d1 ← in_queue (queue_desc_at desc)
      check (has_next d1.flags)
      d2 ← in_queue (queue_desc_at d1.next)
      check (has_next d2.flags)
      d3 ← in_queue (queue_desc_at d2.next)
      check (has_write d3.flags)
      status ← gets (λ s. s.heap.mem d3.addr)
      check (status == virtio_blk_s_ok)
      check (left_over d2 d3 len == 0)

    -- The cleanup of `free_request`.
    unfoldable pub release_chain : ℕ → ℕ → ℕ → Action (Machine D) ⊤
    release_chain desc1 desc2 desc3 = do
      in_queue (free_queue_desc desc1)
      in_queue (free_queue_desc desc2)
      in_queue (free_queue_desc desc3)
      d1 ← in_queue (queue_desc_at desc1)
      modify (free_header_block d1.addr)

    unfoldable pub free_request : ℕ → Action (Machine D) ⊤
    free_request desc = do
      let none_yet = virtio_invalid_desc
      d1 ← in_queue (queue_desc_at desc)
      on_invalid (release_chain desc none_yet none_yet) (check (has_next d1.flags))
      d2 ← in_queue (queue_desc_at d1.next)
      on_invalid (release_chain desc d1.next none_yet) (check (has_next d2.flags))
      d3 ← in_queue (queue_desc_at d2.next)
      on_invalid (release_chain desc d1.next d2.next) (check (has_write d3.flags))
      release_chain desc d1.next d2.next

    -- The cleanup of `consume_response_virtio_blk`.
    abbrev pub free_popped : ℕ → Action (Machine D) ⊤
    free_popped desc s =
        if desc == virtio_invalid_desc then (ok tt, s) else dropped (free_request desc s)

    -- The loop that waits for a response.
    unfoldable pub wait_loop : ℕ → Action (Machine D) ⊤
    wait_loop zero s = fail hang s
    wait_loop (suc fuel) s =
        let rest = wait_loop fuel (device.poll s) in
        if is_unseen_used_virtio_queue s.queue then (ok tt, s) else rest

    unfoldable pub consume_response_virtio_blk : ℕ → Action (Machine D) ⊤
    consume_response_virtio_blk fuel = do
      wait_loop fuel
      (desc, len) ← in_queue pop_used_virtio_queue
      on_invalid (free_popped desc) (validate_used_response desc len)
      free_popped desc
