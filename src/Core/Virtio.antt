-- ===== src/Core/Virtio.antt =====
-- core/drivers/virtio/virtio_queue.c: a split virtqueue and its list of free descriptors.
pub mod FreeDescs
pub mod Blk
pub mod Init
pub mod Device
mod Tests
use switch_os.Base.{
  ℕ, suc, ◌+◌, ◌/◌, ◌%◌, ◌^◌, Bool, true, false, not, ltb, leb, ◌==◌, ◌||◌, if◌then◌else◌,
}
use switch_os.Base.Action.{⊤, Action, fault, pure, fail, gets, modify, check, ◌>>=◌, ◌>>◌}

abbrev pub virtio_invalid_free_head : ℕ
virtio_invalid_free_head = 0xffff

abbrev pub virtio_invalid_desc : ℕ
virtio_invalid_desc = 0xffff

abbrev pub virtio_invalid_queue_size : ℕ
virtio_invalid_queue_size = 0xffff

-- `struct virtq_desc`
pub record Desc : Type 0 where
  pub addr : ℕ
  pub len : ℕ
  pub flags : ℕ
  pub next : ℕ

abbrev pub virtq_desc_f_next : ℕ
virtq_desc_f_next = 1

abbrev pub virtq_desc_f_write : ℕ
virtq_desc_f_write = 2

-- `flags & VIRTQ_DESC_F_NEXT` and `flags & VIRTQ_DESC_F_WRITE`
abbrev pub has_next : ℕ → Bool
has_next flags = flags % 2 == 1

abbrev pub has_write : ℕ → Bool
has_write flags = flags / 2 % 2 == 1

-- `struct virtq_used_elem`
pub record UsedElem : Type 0 where
  pub id : ℕ
  pub len : ℕ

-- `struct virtio_queue` with the three parts it points at. The queue holds `size` descriptors.
pub record Queue : Type 0 where
  pub num : ℕ
  pub size : ℕ
  pub seen_used : ℕ
  pub notify_off : ℕ
  pub free_head : ℕ
  pub desc : ℕ → Desc
  pub avail_idx : ℕ
  pub avail_ring : ℕ → ℕ
  pub used_idx : ℕ
  pub used_ring : ℕ → UsedElem

-- `queue->desc[i]`, read and written; the table ends after `size` descriptors.
unfoldable pub queue_desc_at : ℕ → Action Queue Desc
queue_desc_at i q = if ltb i q.size then gets (λ q. q.desc i) q else fail fault q

abbrev pub put_desc : ℕ → (Desc → Desc) → Queue → Queue
put_desc i f q = record q { desc = λ j. if j == i then f (q.desc j) else q.desc j }

unfoldable pub set_desc : ℕ → (Desc → Desc) → Action Queue ⊤
set_desc i f q = if ltb i q.size then modify (put_desc i f) q else fail fault q

abbrev pub set_free_head : ℕ → Queue → Queue
set_free_head i q = record q { free_head = i }

unfoldable pub alloc_queue_desc : Action Queue ℕ
alloc_queue_desc = do
  free_head ← gets (λ q. q.free_head)
  check (not (free_head == virtio_invalid_free_head))
  d ← queue_desc_at free_head
  modify (set_free_head d.next)
  pure free_head

unfoldable pub free_queue_desc : ℕ → Action Queue ⊤
free_queue_desc desc q =
    if desc == virtio_invalid_desc || leb q.size desc
    then pure tt q
    else (set_desc desc (λ d. record d { next = q.free_head }) >> modify (set_free_head desc)) q

abbrev pub is_unseen_used_virtio_queue : Queue → Bool
is_unseen_used_virtio_queue q = not (q.seen_used == q.used_idx)

abbrev pub see_used : Queue → Queue
see_used q = record q { seen_used = (q.seen_used + 1) % 2 ^ 16 }

-- The descriptor and the length of the next used element.
unfoldable pub pop_used_virtio_queue : Action Queue (ℕ × ℕ)
pop_used_virtio_queue = do
  q ← gets (λ q. q)
  check (is_unseen_used_virtio_queue q)
  let elem = q.used_ring (q.seen_used % q.size)
  modify see_used
  pure (elem.id % 2 ^ 16, elem.len)
