-- ===== src/Core/Disk.antt =====
-- What core/dump.c uses of the block driver (core/drivers/virtio/virtio_blk.h), as an interface:
-- the operations, and the contract of a request followed by `consume_response_virtio_blk`.
use switch_os.Base.{ℕ, ◌*◌, ◌%◌, ◌^◌, ◌<◌, ◌≡◌}
use switch_os.Base.Action.{⊤, Action, ok}
use switch_os.Base.Bytes.{Bytes, blit, IsBytes}

abbrev pub virtio_blk_sector_size : ℕ
virtio_blk_sector_size = 512

pub record BlkDriver : Type 1 where
  -- The machine as core sees it while it talks to the disk.
  pub Machine : Type 0
  -- Physical memory apart from the driver's own structures, and the disk's content.
  pub ram : Machine → Bytes
  pub disk : Machine → Bytes
  -- A store to memory by the processor.
  pub set_ram : Bytes → Machine → Machine
  -- A request takes the first sector, the buffer's address and its size.
  pub read : ℕ → ℕ → ℕ → Action Machine ⊤
  pub write : ℕ → ℕ → ℕ → Action Machine ⊤
  pub consume : Action Machine ⊤

-- Whole sectors, in numbers that the descriptors and the request's header hold.
abbrev pub WholeSectors : ℕ → ℕ → Type 0
WholeSectors sector size = (size % virtio_blk_sector_size ≡ 0) × (size < 2 ^ 32) × (sector < 2 ^ 64)

module _ (d : BlkDriver) where
  open d use {Machine, ram, disk, set_ram, read, write, consume}

  -- A machine with the given memory and disk that can take a request.
  pub record At (ready : Machine → Type 0) (m f : Bytes) (s : Machine) : Type 0 where
    pub is_ready : ready s
    pub ram_eq : ram s ≡ m
    pub disk_eq : disk s ≡ f

  -- The request succeeds, its response is consumed, and the machine is left as described.
  abbrev pub Serves : (Machine → Type 0) → Action Machine ⊤ → Bytes → Bytes → Machine → Type 0
  Serves ready request m f s =
      (t : Machine) × (request s ≡ (ok tt, t))
      × (u : Machine) × (consume t ≡ (ok tt, u))
      × At ready m f u

  -- A driver and disk that work: a request for whole sectors moves exactly those bytes.
  pub record Works (ready : Machine → Type 0) : Type 0 where
    pub ready-IsBytes : {s : Machine} → ready s → IsBytes (ram s) × IsBytes (disk s)
    pub set_ram-At :
        {m f : Bytes} {s : Machine} (m' : Bytes)
        → IsBytes m'
        → At ready m f s
        → At ready m' f (set_ram m' s)
    pub read-Serves :
        {m f : Bytes} {s : Machine} (sector addr size : ℕ)
        → At ready m f s
        → WholeSectors sector size
        → Serves ready
            (read sector addr size)
            (blit m addr f (virtio_blk_sector_size * sector) size)
            f
            s
    pub write-Serves :
        {m f : Bytes} {s : Machine} (sector addr size : ℕ)
        → At ready m f s
        → WholeSectors sector size
        → Serves ready
            (write sector addr size)
            m
            (blit f (virtio_blk_sector_size * sector) m addr size)
            s
