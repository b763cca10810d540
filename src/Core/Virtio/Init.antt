-- ===== src/Core/Virtio/Init.antt =====
-- The initialisation in core/drivers/virtio/virtio_queue.c: the queue's parts and registers.
pub mod Linked
pub mod Started
use switch_os.Base.{
  ℕ, zero, suc, ◌+◌, ◌-◌, ◌*◌, ◌/◌, ◌%◌, ◌^◌, Bool, not, ltb, ◌==◌, ◌&&◌, if◌then◌else◌,
}
use switch_os.Base.Action.{
  ⊤, Action, Result, ok, pure, gets, modify, check, on_invalid, ◌>>=◌, ◌>>◌,
}
use switch_os.Base.Io.{Wires, Log, read, write}
use switch_os.Core.Alloc.{Heap, core_calloc, core_free}
use switch_os.Core.Virtio.{
  Queue, Desc, virtio_invalid_free_head, virtio_invalid_queue_size, put_desc, set_free_head,
}
use switch_os.Pci.{PciDev}

-- `struct virtio_blk_dev`, the addresses of the queue's parts, the allocators, and the writes to
-- the hardware.
pub record Setup : Type 0 where
  pub log : Log
  pub heap : Heap
  pub pci_dev : PciDev
  pub common_cfg : ℕ
  pub queue : Queue
  pub desc_ptr : ℕ
  pub avail_ptr : ℕ
  pub used_ptr : ℕ
  pub avail_flags : ℕ
  pub notify_off : ℕ
  pub multiplier : ℕ
  pub status : ℕ
  pub features : ℕ

abbrev pub with_log : {A : Type 0} → Setup → Result A × Log → Result A × Setup
with_log s (r, log) = (r, record s { log = log })

-- A step of the hardware.
abbrev pub on_log : {A : Type 0} → Action Log A → Action Setup A
on_log m s = with_log s (m s.log)

abbrev pub on_queue : (Queue → Queue) → Action Setup ⊤
on_queue f = modify (λ s. record s { queue = f s.queue })

abbrev pub with_block : Setup → ℕ × Heap → Result ℕ × Setup
with_block s (p, h) = (ok p, record s { heap = h })

abbrev pub alloc_part : ℕ → ℕ → Action Setup ℕ
alloc_part count size s = with_block s (core_calloc count size s.heap)

-- The registers of `struct virtio_pci_common_cfg`, as offsets.
abbrev pub device_feature_select : ℕ
device_feature_select = 0

abbrev pub device_feature : ℕ
device_feature = 4

abbrev pub driver_feature_select : ℕ
driver_feature_select = 8

abbrev pub driver_feature : ℕ
driver_feature = 12

abbrev pub device_status : ℕ
device_status = 20

abbrev pub queue_select : ℕ
queue_select = 22

abbrev pub queue_size : ℕ
queue_size = 24

abbrev pub queue_enable : ℕ
queue_enable = 28

abbrev pub queue_notify_off : ℕ
queue_notify_off = 30

abbrev pub queue_desc_lo : ℕ
queue_desc_lo = 32

abbrev pub queue_desc_hi : ℕ
queue_desc_hi = 36

abbrev pub queue_driver_lo : ℕ
queue_driver_lo = 40

abbrev pub queue_driver_hi : ℕ
queue_driver_hi = 44

abbrev pub queue_device_lo : ℕ
queue_device_lo = 48

abbrev pub queue_device_hi : ℕ
queue_device_hi = 52

-- A store to a register of the common configuration.
abbrev pub set_reg : ℕ → ℕ → ℕ → Action Setup ⊤
set_reg width reg value s = on_log (write width (s.common_cfg + reg) value) s

unfoldable pub configure_queue_ptrs : Action Setup ⊤
configure_queue_ptrs = do
  s ← gets (λ s. s)
  set_reg 16 queue_select s.queue.num
  set_reg 32 queue_desc_lo s.desc_ptr
  set_reg 32 queue_desc_hi (s.desc_ptr / 2 ^ 32)
  set_reg 32 queue_driver_lo s.avail_ptr
  set_reg 32 queue_driver_hi (s.avail_ptr / 2 ^ 32)
  set_reg 32 queue_device_lo s.used_ptr
  set_reg 32 queue_device_hi (s.used_ptr / 2 ^ 32)

-- The loop that links the descriptors from `i` on.
unfoldable pub link_loop : ℕ → ℕ → Queue → Queue
link_loop zero i q = q
link_loop (suc k) i q =
    link_loop k (suc i) (put_desc i (λ d. record d { next = (i + 1) % 2 ^ 16 }) q)

abbrev pub last_desc : Queue → Queue
last_desc q = put_desc (q.size - 1) (λ d. record d { next = virtio_invalid_free_head }) q

-- The descriptors that `core_calloc` has zeroed.
abbrev pub zero_descs : ℕ → Setup → Setup
zero_descs ptr s = record s {
  desc_ptr = ptr;
  queue = record s.queue { desc = λ j. record { addr = 0; len = 0; flags = 0; next = 0 } };
}

abbrev pub zero_avail : ℕ → Setup → Setup
zero_avail ptr s = record s {
  avail_ptr = ptr;
  avail_flags = 0;
  queue = record s.queue { avail_idx = 0; avail_ring = λ j. 0 };
}

abbrev pub zero_used : ℕ → Setup → Setup
zero_used ptr s = record s {
  used_ptr = ptr;
  queue = record s.queue { used_idx = 0; used_ring = λ j. record { id = 0; len = 0 } };
}

-- The cleanup of `init_virtio_blk_queue`. `buffer` is where the allocators' buffers lie.
abbrev pub free_parts : (buffer : ℕ → ℕ) → Action Setup ⊤
free_parts buffer = modify (λ s. record s {
  heap =
      core_free buffer s.used_ptr
        (core_free buffer s.avail_ptr (core_free buffer s.desc_ptr s.heap));
})

module _ (wires : Wires) where
  abbrev pub get_reg : ℕ → ℕ → Action Setup ℕ
  get_reg width reg s = on_log (read wires width (s.common_cfg + reg)) s

  -- The product is one of 32 bits.
  unfoldable pub init_queue_notify_off : Action Setup ⊤
  init_queue_notify_off = do
    s ← gets (λ s. s)
    check (not (s.notify_off == 0))
    off ← get_reg 16 queue_notify_off
    on_queue (λ q. record q { notify_off = (s.notify_off + off * s.multiplier % 2 ^ 32) % 2 ^ 64 })

  module _ (buffer : ℕ → ℕ) where
    -- What follows the allocations.
    unfoldable pub start_queue : ℕ → Action Setup ⊤
    start_queue size = do
      modify (λ s. record s { avail_flags = 1 })
      configure_queue_ptrs
      on_queue (link_loop size 0)
      on_queue last_desc
      on_queue (set_free_head 0)
      on_queue (λ q. record q { seen_used = 0 })
      init_queue_notify_off
      set_reg 16 queue_enable 1

    unfoldable pub try_queue : Action Setup ⊤
    try_queue = do
      num ← gets (λ s. s.queue.num)
      set_reg 16 queue_select num
      size ← get_reg 16 queue_size
      check (not (size == virtio_invalid_queue_size) && ltb 0 size)
      on_queue (λ q. record q { size = size })
      desc ← alloc_part 16 size
      modify (zero_descs desc)
      check (not (desc == 0))
      avail ← alloc_part (4 + 2 * size) 1
      modify (zero_avail avail)
      check (not (avail == 0))
      used ← alloc_part (4 + 8 * size) 1
      modify (zero_used used)
      check (not (used == 0))
      start_queue size

    unfoldable pub init_virtio_blk_queue : Action Setup ⊤
    init_virtio_blk_queue = on_invalid (free_parts buffer) try_queue
