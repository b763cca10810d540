-- ===== src/Core/Virtio/Blk/Answering.antt =====
-- What the driver of core/drivers/virtio/virtio_blk.c relies on: the behaviour of a virtio block
-- device on one outstanding chain (virtio 1.2, sections 2.7 and 5.2.6), and the loop that waits.
use switch_os.Base.{
  ℕ, zero, suc, ◌+◌, ◌*◌, ◌%◌, ◌^◌, ◌<◌, ◌≡◌, ◌≢◌, ◌⊎◌, inl, inr, true, false, ◌==◌, if◌then◌else◌,
  arith,
}
use switch_os.Base.Action.{ok}
use switch_os.Base.Bytes.{Bytes, blit, IsBytes, blit-IsBytes}
use switch_os.Core.Disk.{virtio_blk_sector_size, WholeSectors}
use switch_os.Core.Virtio.{is_unseen_used_virtio_queue}
use switch_os.Core.Virtio.Blk.{Machine, Device, virtio_blk_t_in, virtio_blk_t_out, wait_loop}
use switch_os.Core.Virtio.Blk.Chains.{Chain, Links, Asks}

-- Memory and the disk once the request has been carried out.
abbrev pub ram_after : (type sector data_at size : ℕ) → Bytes → Bytes → Bytes
ram_after type sector data_at size m f =
    if type == virtio_blk_t_in then blit m data_at f (virtio_blk_sector_size * sector) size else m

abbrev pub disk_after : (type sector data_at size : ℕ) → Bytes → Bytes → Bytes
disk_after type sector data_at size m f =
    if type == virtio_blk_t_in then f else blit f (virtio_blk_sector_size * sector) m data_at size

-- The bytes that the device writes to the chain: for a read the data, and the status.
abbrev pub used_len : (type size : ℕ) → ℕ
used_len type size = if type == virtio_blk_t_in then size + 1 else 1

abbrev pub InOrOut : ℕ → Type 0
InOrOut type = (type ≡ virtio_blk_t_in) ⊎ (type ≡ virtio_blk_t_out)

module _ (type sector data_at size : ℕ) (m f : Bytes) where
  pub ram_after-IsBytes :
      InOrOut type → IsBytes m × IsBytes f → IsBytes (ram_after type sector data_at size m f)
  ram_after-IsBytes (inl e) (p, q) =
      rw e (blit-IsBytes m f data_at (virtio_blk_sector_size * sector) size p q)
  ram_after-IsBytes (inr e) (p, q) = rw e p

  pub disk_after-IsBytes :
      InOrOut type → IsBytes m × IsBytes f → IsBytes (disk_after type sector data_at size m f)
  disk_after-IsBytes (inl e) (p, q) = rw e q
  disk_after-IsBytes (inr e) (p, q) =
      rw e (blit-IsBytes f m (virtio_blk_sector_size * sector) data_at size q p)

module _ {D : Type 0} (device : Device D) where
  abbrev pub notified : Machine D → Machine D
  notified s = device.notify s.queue.notify_off s.queue.num s

  unfoldable pub polls : ℕ → Machine D → Machine D
  polls zero s = s
  polls (suc k) s = polls k (device.poll s)

  -- A chain is available that has not been answered, and it is the only one.
  pub record Outstanding (s : Machine D) (type sector data_at size : ℕ) (c : Chain) : Type 0 where
    pub some_size : 0 < s.queue.size
    pub one : s.queue.avail_idx ≡ (s.queue.used_idx + 1) % 2 ^ 16
    pub ring : s.queue.avail_ring (s.queue.used_idx % s.queue.size) ≡ c.desc1
    pub links : Links s.queue type data_at size c
    pub asks : Asks s.heap.mem type sector c.header

  -- The device has carried out the request and put the chain on the used ring.
  pub record Answered (idle : D → Type 0) (s : Machine D) (type sector data_at size : ℕ) (c : Chain)
      (t : Machine D) : Type 0 where
    pub is_idle : idle t.dev
    pub ram_eq : t.ram ≡ ram_after type sector data_at size s.ram (device.disk s.dev)
    pub disk_eq : device.disk t.dev ≡ disk_after type sector data_at size s.ram (device.disk s.dev)
    pub status : t.heap.mem (c.header + 16) ≡ 0
    pub same_mem : (x : ℕ) → x ≢ c.header + 16 → t.heap.mem x ≡ s.heap.mem x
    pub same_head : (j : ℕ) → t.heap.head j ≡ s.heap.head j
    pub queue : t.queue ≡ record s.queue {
      used_idx = (s.queue.used_idx + 1) % 2 ^ 16;
      used_ring = t.queue.used_ring;
    }
    pub elem :
        t.queue.used_ring (s.queue.used_idx % s.queue.size)
        ≡ record { id = c.desc1; len = used_len type size }

  -- An idle device that is notified of its only outstanding request answers it within `delay`
  -- polls, and until then leaves the queue alone.
  pub record Obeys (idle : D → Type 0) (delay : ℕ) : Type 0 where
    pub answers :
        {s : Machine D} {type sector data_at size : ℕ} {c : Chain}
        → idle s.dev
        → Outstanding s type sector data_at size c
        → WholeSectors sector size
        → InOrOut type
        → (k : ℕ) × (k < delay)
          × ((j : ℕ) → j < k → (polls j (notified s)).queue ≡ s.queue)
          × Answered idle s type sector data_at size c (polls k (notified s))

  module _ (buffer : ℕ → ℕ) where
    -- The loop ends at the first poll after which there is an unseen element.
    pub wait_loop-polls :
        (k fuel : ℕ) (s : Machine D)
        → k < fuel
        → ((j : ℕ) → j < k → is_unseen_used_virtio_queue (polls j s).queue ≡ false)
        → is_unseen_used_virtio_queue (polls k s).queue ≡ true
        → wait_loop buffer device fuel s ≡ (ok tt, polls k s)
    unfolding wait_loop polls
    wait_loop-polls k zero s lt before now = absurd (omega arith)
    wait_loop-polls zero (suc fuel) s lt before now = rw now
    wait_loop-polls (suc k) (suc fuel) s lt before now = rw (before 0 (omega arith)) (
        wait_loop-polls k fuel (device.poll s) (omega arith) (λ j r. before (suc j) (omega arith))
          now)
