-- ===== src/Core/Dump/Ideal.antt =====
-- A disk that serves each request at once, for examples of the contract in Core/Disk.antt.
use switch_os.Base.{ℕ, ◌*◌, ◌%◌, ◌≡◌, refl, ◌==◌, if◌then◌else◌}
use switch_os.Base.Action.{⊤, Action, ok, invalid}
use switch_os.Base.Bytes.{Bytes, blit, IsBytes, blit-IsBytes}
use switch_os.Core.Disk.{BlkDriver, Works, At, Serves, virtio_blk_sector_size}

pub record Pair : Type 0 where
  pub ram : Bytes
  pub disk : Bytes

abbrev ideal_read : ℕ → ℕ → ℕ → Action Pair ⊤
ideal_read sector addr size s =
    if size % virtio_blk_sector_size == 0
    then (ok tt, record s { ram = blit s.ram addr s.disk (virtio_blk_sector_size * sector) size })
    else (invalid, s)

abbrev ideal_write : ℕ → ℕ → ℕ → Action Pair ⊤
ideal_write sector addr size s =
    if size % virtio_blk_sector_size == 0
    then (ok tt, record s { disk = blit s.disk (virtio_blk_sector_size * sector) s.ram addr size })
    else (invalid, s)

abbrev pub ideal : BlkDriver
ideal = record {
  Machine = Pair;
  ram = λ s. s.ram;
  disk = λ s. s.disk;
  set_ram = λ m s. record s { ram = m };
  read = ideal_read;
  write = ideal_write;
  consume = λ s. (ok tt, s);
}

abbrev pub Sound : Pair → Type 0
Sound s = IsBytes s.ram × IsBytes s.disk

module _ {m f : Bytes} {s : Pair} (sector addr size : ℕ) (at : At ideal Sound m f s)
    (whole : size % virtio_blk_sector_size ≡ 0) where
  read-Serves :
      Serves ideal Sound
        (ideal_read sector addr size)
        (blit m addr f (virtio_blk_sector_size * sector) size)
        f
        s
  read-Serves =
      let pos = virtio_blk_sector_size * sector in
      let t : Pair = record s { ram = blit s.ram addr s.disk pos size } in
      (
        t,
        rw whole,
        t,
        refl,
        record {
          is_ready =
              (blit-IsBytes s.ram s.disk addr pos size at.is_ready.0 at.is_ready.1, at.is_ready.1);
          ram_eq = rw (at.ram_eq, at.disk_eq);
          disk_eq = at.disk_eq;
        },
      )

  write-Serves :
      Serves ideal Sound
        (ideal_write sector addr size)
        m
        (blit f (virtio_blk_sector_size * sector) m addr size)
        s
  write-Serves =
      let pos = virtio_blk_sector_size * sector in
      let t : Pair = record s { disk = blit s.disk pos s.ram addr size } in
      (
        t,
        rw whole,
        t,
        refl,
        record {
          is_ready =
              (at.is_ready.0, blit-IsBytes s.disk s.ram pos addr size at.is_ready.1 at.is_ready.0);
          ram_eq = at.ram_eq;
          disk_eq = rw (at.ram_eq, at.disk_eq);
        },
      )

pub ideal-Works : Works ideal Sound
ideal-Works = record {
  ready-IsBytes = λ r. r;
  set_ram-At = λ m' small at. record {
    is_ready = (small, at.is_ready.1);
    ram_eq = refl;
    disk_eq = at.disk_eq;
  };
  read-Serves = λ sector addr size at whole. read-Serves sector addr size at whole.0;
  write-Serves = λ sector addr size at whole. write-Serves sector addr size at whole.0;
}
