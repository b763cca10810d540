-- ===== src/Core/Virtio/Blk/Failing.antt =====
-- The error paths of core/drivers/virtio/virtio_blk.c.
use switch_os.Base.{ℕ, ◌≡◌}
use switch_os.Core.Alloc.{Heap, clear, core_free}
use switch_os.Core.Alloc.FreeList.{Lists, Tracked}
use switch_os.Core.Virtio.{Queue}
use switch_os.Core.Virtio.FreeDescs.{FreeDescs}
use switch_os.Core.Virtio.Blk.{Machine, Device, set_req_header}

module _ {D : Type 0} (buffer : ℕ → ℕ) (device : Device D) where
  -- The queue and the heap after the cleanup of a request.
  abbrev released : ℕ → Queue → Machine D → Machine D
  released header q s = record s { heap = core_free buffer header s.heap; queue = q }

  -- A machine whose queue has no third free descriptor: what the request sends back.
  abbrev headed : (type sector header : ℕ) → Heap → Queue → Machine D → Machine D
  headed type sector header h q s = record s {
    heap = set_req_header header type sector (record h { mem = clear h.mem header 17 });
    queue = q;
  }

  -- Nothing has been posted, and what the request had taken is free again.
  pub record Undone (n : ℕ) (s t : Machine D) : Type 0 where
    pub free : Lists
    pub at : ℕ → ℕ
    pub tracked : Tracked buffer t.heap free
    pub descs : FreeDescs t.queue n at
    pub same_ram : t.ram ≡ s.ram
    pub same_dev : t.dev ≡ s.dev
    pub same_avail : t.queue.avail_idx ≡ s.queue.avail_idx
