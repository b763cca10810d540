-- ===== src/Core/Dump/StoreLoad.antt =====
-- A stored dump is found, valid and loaded back: `disk_store_dump`, `does_disk_contain_dump` and
-- `disk_load_dump`.
use switch_os.Base.{ℕ, suc, ◌+◌, ◌-◌, ◌*◌, ◌/◌, ◌^◌, ◌≤◌, ◌<◌, ◌≡◌, ◌≢◌, ◌∙◌, ap, sym, refl, arith}
use switch_os.Base.Action.{ok}
use switch_os.Base.Bytes.{load32-lt, blit-Outside, Outside, Apart}
use switch_os.Core.Header.{CoreHeader}
use switch_os.Core.Disk.{BlkDriver, Works, virtio_blk_sector_size}
use switch_os.Core.Dump.{write_dump_header, fill_dump_header, store_loop, disk_store_dump}
use switch_os.Core.Dump.Layout.{DiskMemArea, DumpHeader, header_size, put_header, get_header}
use switch_os.Core.Dump.Layout.RoundTrip.{Fits, Same, put_header-Outside}
use switch_os.Core.Dump.HeaderIo
use switch_os.Core.Dump.HeaderIo.{header_on}
use switch_os.Core.Dump.Areas.{position, Separate}
use switch_os.Core.Dump.Fill.{
  Whole, entry, first_sector, first_sector_mono, Filled, fill_dump_header-Filled, small_sector,
}
use switch_os.Core.Dump.Transfer.{Sectors, store_loop-Stored}
use switch_os.Core.Dump.Valid.{Valid}
use switch_os.Core.Dump.Exchange.{saved_vector}
use switch_os.Core.Dump.SameAreas.{Separate-Same}

-- Memory areas of whole sectors that share no byte with one another or with the header's buffer.
pub record Dumpable (g : CoreHeader) (header_at : ℕ) : Type 0 where
  pub whole : Whole g
  pub words :
      (j : ℕ)
      → j < g.ram_areas_size
      → ((g.ram_areas j).start < 2 ^ 64) × ((g.ram_areas j).size < 2 ^ 32)
  pub apart :
      (j l : ℕ)
      → j < l
      → l < g.ram_areas_size
      → Apart (g.ram_areas j).start (g.ram_areas j).size (g.ram_areas l).start (g.ram_areas l).size
  pub header_apart :
      (j : ℕ)
      → j < g.ram_areas_size
      → Apart header_at header_size (g.ram_areas j).start (g.ram_areas j).size

module _ (g : CoreHeader) (header_at : ℕ) (good : Dumpable g header_at) where
  -- On the disk each area ends before the next begins.
  in_order :
      (j l : ℕ)
      → j < l
      → first_sector g.ram_areas j + (g.ram_areas j).size / virtio_blk_sector_size
        ≤ first_sector g.ram_areas l
  in_order j l p =
      let e : suc j + (l - suc j) ≡ l = omega arith in
      rw e at (first_sector_mono g.ram_areas (suc j) (l - suc j))

  entries-Separate : Separate (entry g) g.ram_areas_size 0
  entries-Separate = record {
    ram_apart = λ j l a b c. good.apart j l b (omega arith);
    disk_apart =
        λ j l a b c. let w = good.whole.area j (omega arith) in omega (arith, in_order j l b, w.1);
  }

  behind_header : (j : ℕ) → 4 ≤ first_sector g.ram_areas j
  behind_header j =
      let e : 0 + j ≡ j = omega arith in
      let m : first_sector g.ram_areas 0 ≤ first_sector g.ram_areas j =
        rw e at (first_sector_mono g.ram_areas 0 j) in
      m

  module _ (vector : ℕ) (h : DumpHeader) (filled : Filled g vector h) where
    pub areas_Separate : Separate h.areas g.ram_areas_size 0
    areas_Separate = Separate-Same h.areas (entry g) g.ram_areas_size filled.area entries-Separate

    pub areas_Sectors : Sectors h.areas g.ram_areas_size 0
    areas_Sectors j a b = rw (filled.area j (omega arith)) (
      (good.whole.area j (omega arith)).1,
      (good.words j (omega arith)).1,
      omega (arith, small_sector g j good.whole (omega arith)),
    )

    filled-Fits : vector < 2 ^ 32 → Fits h
    filled-Fits small = record {
      magic = rw filled.magic (omega arith);
      waking_vector = rw filled.waking_vector small;
      areas_size = rw filled.count (let few = good.whole.few in omega (arith, few));
      area = λ j a.
          let b : j < g.ram_areas_size = rw filled.count at a in
          rw (filled.area j b) (
            (good.words j b).0,
            omega (arith, (good.words j b).1),
            small_sector g j good.whole (omega arith),
          );
    }

    pub filled-Valid : vector ≢ 0 → Valid g h
    filled-Valid awake = record {
      magic = filled.magic;
      waking_vector = λ e. awake (sym filled.waking_vector ∙ e);
      some_area = λ e. good.whole.some_area (sym filled.count ∙ e);
      count = filled.count;
      area = λ j a.
          let b : j < g.ram_areas_size = rw filled.count at a in
          rw (filled.area j b) ((good.whole.area j b).0, refl, refl);
    }

module _ (d : BlkDriver) (g : CoreHeader) (header_at switch_buf : ℕ) (ready : d.Machine → Type 0)
    (works : Works d ready) (good : Dumpable g header_at) where
  open d use {Machine, ram, disk}

  -- The disk holds a dump of the memory of `s`.
  pub record Dumped (s v : Machine) : Type 0 where
    pub is_ready : ready v
    pub header : Filled g (saved_vector g (ram s)) (header_on (disk v))
    pub stored :
        (j x : ℕ)
        → j < g.ram_areas_size
        → x < (g.ram_areas j).size
        → disk v (position (entry g) j + x) ≡ ram s ((g.ram_areas j).start + x)
    pub ram_frame : (x : ℕ) → Outside header_at header_size x → ram v x ≡ ram s x

  store_dump_runs :
      (h : DumpHeader) (s t v : Machine)
      → fill_dump_header d g header_at switch_buf (get_header header_at (ram s)) s ≡ (ok h, s)
      → store_loop d g header_at switch_buf h.areas_size 0 h.areas s ≡ (ok tt, t)
      → write_dump_header d g header_at switch_buf h t ≡ (ok tt, v)
      → disk_store_dump d g header_at switch_buf s ≡ (ok tt, v)
  unfolding disk_store_dump
  store_dump_runs h s t v a b c = rw (a, b, c)

  pub Same-Filled :
      (vector : ℕ) (h k : DumpHeader) → Same h k → Filled g vector k → Filled g vector h
  Same-Filled vector h k same filled = record {
    magic = same.magic ∙ filled.magic;
    waking_vector = same.waking_vector ∙ filled.waking_vector;
    count = same.areas_size ∙ filled.count;
    area = λ j a. same.area j (rw filled.count a) ∙ filled.area j a;
  }

  -- The recorded areas are written to the disk behind the header, each at its place, the header
  -- follows, and memory stays as it is outside the header's buffer.
  pub disk_store_dump-Dumped :
      (s : Machine)
      → ready s
      → saved_vector g (ram s) ≢ 0
      → (v : Machine) × (disk_store_dump d g header_at switch_buf s ≡ (ok tt, v)) × Dumped s v
  disk_store_dump-Dumped s r awake =
      let vector = saved_vector g (ram s) in
      let n = g.ram_areas_size in
      let small = load32-lt (ram s) (g.facs + 40) (works.ready-IsBytes r).0 in
      let (h, a, filled) =
        fill_dump_header-Filled d g header_at switch_buf ready works (get_header header_at (ram s))
          s good.whole awake in
      let (t, b, p) =
        store_loop-Stored d ready g header_at switch_buf works h.areas n 0 s r
          (areas_Sectors g header_at good vector h filled)
          (areas_Separate g header_at good vector h filled) in
      let (v, c, at) =
        HeaderIo.write_dump_header-runs d g header_at switch_buf ready works h t p.is_ready in
      let written =
        HeaderIo.header_on-written header_at h (ram t) (disk t)
          (filled-Fits g header_at good vector h filled small) (rw filled.count good.whole.few) in
      (
        v,
        store_dump_runs h s t v a (rw filled.count b) c,
        record {
          is_ready = at.is_ready;
          header = Same-Filled vector (header_on (disk v)) h (rw at.disk_eq written) filled;
          stored = λ j x e f.
              ap (λ m. m (position (entry g) j + x)) at.disk_eq
              ∙ blit-Outside (disk t) 0 (put_header h header_at (ram t)) header_at header_size
                  (position (entry g) j + x) (omega (arith, behind_header g header_at good j))
              ∙ ap (λ (k : DiskMemArea). disk t (512 * k.sector + x)) (sym (filled.area j e))
              ∙ p.stored j x (omega arith) (omega arith) (rw (filled.area j e) f)
              ∙ ap (λ (k : DiskMemArea). ram s (k.start + x)) (filled.area j e);
          ram_frame = λ x o.
              ap (λ m. m x) at.ram_eq
              ∙ put_header-Outside h header_at (ram t) x o
              ∙ ap (λ m. m x) p.ram_same;
        },
      )
