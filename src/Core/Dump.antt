-- ===== src/Core/Dump.antt =====
-- core/dump.c: a dump is a header in sector 0 and the memory areas behind it.
pub mod Layout
pub mod Switch
pub mod Transfer
pub mod StoreLoad
pub mod LoadBack
pub mod Ideal
mod Tests
pub mod Fill
pub mod Twice
pub mod Exchange
pub mod SameAreas
pub mod HeaderIo
pub mod Valid
pub mod Areas
use switch_os.Base.{
  ℕ, zero, suc, ◌+◌, ◌-◌, ◌*◌, ◌/◌, ◌%◌, ◌^◌, Bool, true, false, not, ◌&&◌, ltb, leb, ◌==◌,
  if◌then◌else◌,
}
use switch_os.Base.Action.{
  ⊤, Action, Result, fault, hang, pure, fail, gets, modify, check, and_then, ◌>>=◌, ◌>>◌,
}
use switch_os.Base.Bytes.{Bytes, load32, blit}
use switch_os.Core.Header.{CoreHeader, MemArea, max_ram_areas}
use switch_os.Core.Disk.{BlkDriver, virtio_blk_sector_size}
use Layout.{DiskMemArea, DumpHeader, header_size, put_header, get_header}

abbrev pub core_disk_dump_magic : ℕ
core_disk_dump_magic = 0xabcdef12

-- `DUMP_HEADER_SECTORS_SIZE`.
abbrev pub dump_header_sectors_size : ℕ
dump_header_sectors_size = 4

abbrev pub switch_buf_size : ℕ
switch_buf_size = 8 * 1024 * 1024

-- Where `rsvd1` stands in `struct acpi_facs`.
abbrev pub facs_rsvd1 : ℕ
facs_rsvd1 = 40

-- `header->areas[i] = a`.
abbrev pub set_area : (ℕ → DiskMemArea) → ℕ → DiskMemArea → ℕ → DiskMemArea
set_area areas i a j = if j == i then a else areas j

-- What `fill_dump_header` enters for an area.
unfoldable pub disk_area : MemArea → ℕ → DiskMemArea
disk_area a next_sector = record { start = a.start; size = a.size; sector = next_sector % 2 ^ 32 }

-- `MIN(sizeof(switch_buf), end - addr)`
abbrev pub switch_read_size : (addr stop : ℕ) → ℕ
switch_read_size addr stop =
    if ltb switch_buf_size (stop - addr) then switch_buf_size else stop - addr

module _ {S : Type 0} where
  -- The loops of `is_dump_header_valid`. An index past the array of 64 areas is a fault.
  unfoldable pub sizes_loop : ℕ → ℕ → (ℕ → DiskMemArea) → Action S Bool
  sizes_loop zero i areas = pure true
  sizes_loop (suc k) i areas =
      if ltb i max_ram_areas
      then (if (areas i).size == 0 then pure false else sizes_loop k (suc i) areas)
      else fail fault

  unfoldable pub match_loop : ℕ → ℕ → (ℕ → DiskMemArea) → (ℕ → MemArea) → Action S Bool
  match_loop zero i areas ram_areas = pure true
  match_loop (suc k) i areas ram_areas =
      if ltb i max_ram_areas
      then (if (ram_areas i).start == (areas i).start && (ram_areas i).size == (areas i).size
          then match_loop k (suc i) areas ram_areas
          else pure false)
      else fail fault

  -- `g` is `g_core_header`.
  unfoldable pub is_dump_header_valid : CoreHeader → DumpHeader → Action S Bool
  is_dump_header_valid g h =
      if not (h.magic == core_disk_dump_magic)
      then pure false
      else if h.waking_vector == 0
      then pure false
      else if h.areas_size == 0
      then pure false
      else do
        positive ← sizes_loop h.areas_size 0 h.areas
        if positive && h.areas_size == g.ram_areas_size
            then match_loop h.areas_size 0 h.areas g.ram_areas
            else pure false

-- `g` is `g_core_header`. `header_at` is the address of the local variable `header`, and
-- `switch_buf` that of the static buffer.
module _ (d : BlkDriver) (g : CoreHeader) (header_at switch_buf : ℕ) where
  open d use {Machine, ram, disk, set_ram, read, write, consume}

  -- core/acpi.c
  unfoldable pub find_original_waking_vector : Action Machine ℕ
  find_original_waking_vector = do
    waking_vector ← gets (λ s. load32 (ram s) (g.facs + facs_rsvd1))
    check (not (waking_vector == 0))
    pure waking_vector

  unfoldable pub read_dump_header : Action Machine DumpHeader
  read_dump_header = do
    read 0 header_at header_size
    consume
    gets (λ s. get_header header_at (ram s))

  unfoldable pub write_dump_header : DumpHeader → Action Machine ⊤
  write_dump_header h = do
    modify (λ s. set_ram (put_header h header_at (ram s)) s)
    write 0 header_at header_size
    consume

  unfoldable pub fill_loop : ℕ → ℕ → ℕ → DumpHeader → Action Machine DumpHeader
  fill_loop zero i next_sector h = pure h
  fill_loop (suc k) i next_sector h = do
    let area = g.ram_areas i
    check (ltb 0 area.size)
    check (area.size % virtio_blk_sector_size == 0)
    fill_loop k (suc i) ((next_sector + area.size / virtio_blk_sector_size) % 2 ^ 64)
        (record h { areas = set_area h.areas i (disk_area area next_sector) })

  unfoldable pub fill_dump_header : DumpHeader → Action Machine DumpHeader
  fill_dump_header h = do
    waking_vector ← find_original_waking_vector
    check (leb g.ram_areas_size max_ram_areas)
    fill_loop g.ram_areas_size 0 dump_header_sectors_size (record h {
      magic = core_disk_dump_magic;
      waking_vector = waking_vector;
      areas_size = g.ram_areas_size;
    })

  unfoldable pub store_loop : ℕ → ℕ → (ℕ → DiskMemArea) → Action Machine ⊤
  store_loop zero i areas = pure tt
  store_loop (suc k) i areas = do
    write (areas i).sector (areas i).start (areas i).size
    consume
    store_loop k (suc i) areas

  -- The local header holds what the stack held.
  unfoldable pub disk_store_dump : Action Machine ⊤
  disk_store_dump = do
    garbage ← gets (λ s. get_header header_at (ram s))
    header ← fill_dump_header garbage
    store_loop header.areas_size 0 header.areas
    write_dump_header header

  unfoldable pub does_disk_contain_dump : Action Machine Bool
  does_disk_contain_dump = read_dump_header >>= is_dump_header_valid g

  unfoldable pub load_loop : ℕ → ℕ → (ℕ → DiskMemArea) → Action Machine ⊤
  load_loop zero i areas = pure tt
  load_loop (suc k) i areas = do
    read (areas i).sector (areas i).start (areas i).size
    consume
    load_loop k (suc i) areas

  -- The result is `*dump_waking_vector_out`.
  unfoldable pub disk_load_dump : Action Machine ℕ
  disk_load_dump = do
    header ← read_dump_header
    is_valid ← is_dump_header_valid g header
    check is_valid
    load_loop header.areas_size 0 header.areas
    pure header.waking_vector

  -- One round of the loop of `switch_memory_area`.
  unfoldable pub switch_round : (addr sector read_size : ℕ) → Action Machine ⊤
  switch_round addr sector read_size = do
    check (read_size % virtio_blk_sector_size == 0)
    read sector switch_buf read_size
    consume
    write sector addr read_size
    consume
    modify (λ s. set_ram (blit (ram s) addr (ram s) switch_buf read_size) s)

  unfoldable pub switch_loop : ℕ → (addr stop sector : ℕ) → Action Machine ⊤
  switch_loop zero addr stop sector = fail hang
  switch_loop (suc fuel) addr stop sector =
      let n = switch_read_size addr stop in
      let rest =
        switch_loop fuel ((addr + switch_buf_size) % 2 ^ 64) stop
          ((sector + n / virtio_blk_sector_size) % 2 ^ 64) in
      if ltb addr stop then switch_round addr sector n >> rest else pure tt

  -- Each round takes `switch_buf_size` bytes, so these rounds are enough.
  unfoldable pub switch_memory_area : DiskMemArea → Action Machine ⊤
  switch_memory_area a =
      switch_loop (a.size / switch_buf_size + 2) a.start ((a.start + a.size) % 2 ^ 64) a.sector

  unfoldable pub switch_areas : ℕ → ℕ → (ℕ → DiskMemArea) → Action Machine ⊤
  switch_areas zero i areas = pure tt
  switch_areas (suc k) i areas = do switch_memory_area (areas i); switch_areas k (suc i) areas

  -- The second part of the state is `*dump_waking_vector_out`, which is written before the last
  -- checks.
  abbrev pub beside_out : {A : Type 0} → Action Machine A → Action (Machine × ℕ) A
  beside_out m (s, out) = let (r, t) = m s in (r, (t, out))

  unfoldable pub disk_switch_dump : Action (Machine × ℕ) ⊤
  disk_switch_dump = do
    header ← beside_out read_dump_header
    is_valid ← beside_out (is_dump_header_valid g header)
    check is_valid
    beside_out (switch_areas header.areas_size 0 header.areas)
    modify (λ (s, out). (s, header.waking_vector))
    waking_vector ← beside_out find_original_waking_vector
    beside_out (write_dump_header (record header { waking_vector = waking_vector }))
