-- ===== src/Core/Dump/Fill.antt =====
-- `fill_dump_header`: the areas follow the header and one another on the disk.
use switch_os.Base.{
  ℕ, zero, suc, ◌+◌, ◌-◌, ◌/◌, ◌%◌, ◌^◌, ◌≤◌, ◌<◌, ◌≡◌, ◌≢◌, ◌∙◌, refl, inl, inr, arith, true, ltb,
  leb, ◌==◌, Bool-cases,
}
use switch_os.Base.Action.{ok, invalid}
use switch_os.Base.Bytes.{load32}
use switch_os.Core.Header.{CoreHeader, MemArea, max_ram_areas}
use switch_os.Core.Disk.{BlkDriver, Works, virtio_blk_sector_size}
use switch_os.Core.Dump.{
  core_disk_dump_magic, dump_header_sectors_size, facs_rsvd1, set_area, disk_area,
  find_original_waking_vector, fill_loop, fill_dump_header,
}
use switch_os.Core.Dump.Layout.{DiskMemArea, DumpHeader}
use switch_os.Core.Dump.Layout.RoundTrip.{DiskMemArea_eq}
use switch_os.Core.Dump.HeaderIo.{find_original_waking_vector-runs}

-- The sector at which area `j` begins: behind the header and the areas before it.
abbrev pub first_sector : (ℕ → MemArea) → ℕ → ℕ
first_sector areas zero = dump_header_sectors_size
first_sector areas (suc j) = first_sector areas j + (areas j).size / virtio_blk_sector_size

pub first_sector_mono :
    (areas : ℕ → MemArea) (i k : ℕ) → first_sector areas i ≤ first_sector areas (i + k)
first_sector_mono areas i zero = rw (right_zero i) (omega arith)
  where
    right_zero : (n : ℕ) → n + 0 ≡ n
    right_zero n = omega arith
first_sector_mono areas i (suc k) = rw (next i k) (omega (arith, first_sector_mono areas i k))
  where
    next : (n m : ℕ) → n + suc m ≡ suc (n + m)
    next n m = omega arith

-- What core expects of the memory areas that the EFI application recorded.
pub record Whole (g : CoreHeader) : Type 0 where
  pub few : g.ram_areas_size ≤ max_ram_areas
  pub some_area : g.ram_areas_size ≢ 0
  pub area :
      (j : ℕ)
      → j < g.ram_areas_size
      → ((g.ram_areas j).size ≢ 0) × ((g.ram_areas j).size % virtio_blk_sector_size ≡ 0)
  -- The last sector has a 32-bit number.
  pub fits : first_sector g.ram_areas g.ram_areas_size < 2 ^ 32

-- The entry for area `j`.
abbrev pub entry : CoreHeader → ℕ → DiskMemArea
entry g j = record {
  start = (g.ram_areas j).start;
  size = (g.ram_areas j).size;
  sector = first_sector g.ram_areas j;
}

pub small_sector :
    (g : CoreHeader) (i : ℕ) → Whole g → i ≤ g.ram_areas_size → first_sector g.ram_areas i < 2 ^ 32
small_sector g i w p =
    let e : i + (g.ram_areas_size - i) ≡ g.ram_areas_size = omega arith in
    let m = first_sector_mono g.ram_areas i (g.ram_areas_size - i) in
    let m' : first_sector g.ram_areas i ≤ first_sector g.ram_areas g.ram_areas_size = rw e at m in
    omega (arith, w.fits)

-- The header that `fill_dump_header` builds describes exactly the recorded memory areas. They
-- follow the header and one another on the disk without a gap, and the waking vector is the one
-- that the FACS holds.
pub record Filled (g : CoreHeader) (vector : ℕ) (h : DumpHeader) : Type 0 where
  pub magic : h.magic ≡ core_disk_dump_magic
  pub waking_vector : h.waking_vector ≡ vector
  pub count : h.areas_size ≡ g.ram_areas_size
  pub area : (j : ℕ) → j < g.ram_areas_size → h.areas j ≡ entry g j

module _ (d : BlkDriver) (g : CoreHeader) (header_at switch_buf : ℕ) where
  -- `h'` is `h` with the entries for the `k` areas from `i` on.
  record Entered (k i : ℕ) (h h' : DumpHeader) : Type 0 where
    magic : h'.magic ≡ h.magic
    waking_vector : h'.waking_vector ≡ h.waking_vector
    areas_size : h'.areas_size ≡ h.areas_size
    before : (j : ℕ) → j < i → h'.areas j ≡ h.areas j
    entered : (j : ℕ) → i ≤ j → j < i + k → h'.areas j ≡ entry g j

  -- `h` after area `i` has been entered.
  abbrev enter : DumpHeader → ℕ → DumpHeader
  enter h i = record h {
    areas = set_area h.areas i (disk_area (g.ram_areas i) (first_sector g.ram_areas i));
  }

  fill_step :
      (k i : ℕ) (h h' : DumpHeader) (s : d.Machine)
      → (g.ram_areas i).size ≢ 0
      → (g.ram_areas i).size % virtio_blk_sector_size ≡ 0
      → first_sector g.ram_areas (suc i) < 2 ^ 32
      → fill_loop d g header_at switch_buf k
          (suc i)
          (first_sector g.ram_areas (suc i))
          (enter h i)
          s
        ≡ (ok h', s)
      → fill_loop d g header_at switch_buf (suc k) i (first_sector g.ram_areas i) h s ≡ (ok h', s)
  unfolding fill_loop
  fill_step k i h h' s full whole small e =
      let next : (first_sector g.ram_areas i + (g.ram_areas i).size / virtio_blk_sector_size)
            % 2 ^ 64
          ≡ first_sector g.ram_areas i + (g.ram_areas i).size / virtio_blk_sector_size =
        omega arith in
      let positive : ltb 0 (g.ram_areas i).size ≡ true = ground arith in
      let checked : ((g.ram_areas i).size % virtio_blk_sector_size == 0) ≡ true = ground arith in
      rw (positive, checked, next) e

  entry_eq :
      (i : ℕ)
      → first_sector g.ram_areas i < 2 ^ 32
      → disk_area (g.ram_areas i) (first_sector g.ram_areas i) ≡ entry g i
  unfolding disk_area
  entry_eq i small = DiskMemArea_eq refl refl (omega arith)

  fill_loop-Entered :
      (k i : ℕ) (h : DumpHeader) (s : d.Machine)
      → Whole g
      → i + k ≤ g.ram_areas_size
      → (h' : DumpHeader) × (fill_loop d g header_at switch_buf k i (first_sector g.ram_areas i) h s
          ≡ (ok h', s))
        × Entered k i h h'
  unfolding fill_loop
  fill_loop-Entered zero i h s w p = (
    h,
    refl,
    record {
      magic = refl;
      waking_vector = refl;
      areas_size = refl;
      before = λ j a. refl;
      entered = λ j a b. absurd (omega arith);
    },
  )
  fill_loop-Entered (suc k) i h s w p =
      let (h', e, t) = fill_loop-Entered k (suc i) (enter h i) s w (omega arith) in
      let a = w.area i (omega arith) in
      (
        h',
        fill_step k i h h' s a.0 a.1 (small_sector g (suc i) w (omega arith)) e,
        record {
          magic = t.magic;
          waking_vector = t.waking_vector;
          areas_size = t.areas_size;
          before = λ j b. t.before j (omega arith) ∙ other h.areas i j (omega arith);
          entered = λ j b c. elim (Bool-cases (j == i)) [
            | inl now ↦
                let n : j ≡ i = ground arith in
                rw n (
                  t.before i (omega arith)
                  ∙ itself h.areas i
                  ∙ entry_eq i (small_sector g i w (omega arith)))
            | inr later ↦ t.entered j (ground arith) (omega arith)
          ];
        },
      )
    where
      other :
          (areas : ℕ → DiskMemArea) (i j : ℕ)
          → j < i
          → set_area areas i (disk_area (g.ram_areas i) (first_sector g.ram_areas i)) j ≡ areas j
      other areas i j b = ground arith

      itself :
          (areas : ℕ → DiskMemArea) (i : ℕ)
          → set_area areas i (disk_area (g.ram_areas i) (first_sector g.ram_areas i)) i
            ≡ disk_area (g.ram_areas i) (first_sector g.ram_areas i)
      itself areas i = ground arith

  module _ (ready : d.Machine → Type 0) (works : Works d ready) where
    -- Of areas with whole sectors, no more than fit, `fill_dump_header` makes a header that lists
    -- each of them in order, the first behind the header's four sectors and each next one where
    -- the one before it ends. The machine is left as it was.
    pub fill_dump_header-Filled :
        (h : DumpHeader) (s : d.Machine)
        → Whole g
        → load32 (d.ram s) (g.facs + facs_rsvd1) ≢ 0
        → (h' : DumpHeader) × (fill_dump_header d g header_at switch_buf h s ≡ (ok h', s))
          × Filled g (load32 (d.ram s) (g.facs + facs_rsvd1)) h'
    unfolding fill_dump_header
    fill_dump_header-Filled h s w awake =
        let vector = load32 (d.ram s) (g.facs + facs_rsvd1) in
        let start : DumpHeader = record h {
          magic = core_disk_dump_magic;
          waking_vector = vector;
          areas_size = g.ram_areas_size;
        } in
        let (h', e, t) = fill_loop-Entered g.ram_areas_size 0 start s w (omega arith) in
        let found = find_original_waking_vector-runs d g header_at switch_buf ready works s awake in
        let fits : leb g.ram_areas_size max_ram_areas ≡ true =
          let few = w.few in ground (arith, few) in
        (
          h',
          rw (found, fits) e,
          record {
            magic = t.magic;
            waking_vector = t.waking_vector;
            count = t.areas_size;
            area = λ j a. t.entered j (omega arith) (omega arith);
          },
        )

  -- More areas than the header has room for are refused, whatever else holds.
  pub fill_dump_header_full :
      (h : DumpHeader) (s : d.Machine)
      → max_ram_areas < g.ram_areas_size
      → (fill_dump_header d g header_at switch_buf h s).0 ≡ invalid
  unfolding fill_dump_header find_original_waking_vector
  fill_dump_header_full h s many = ground arith
