-- ===== src/Core/Dump/LoadBack.antt =====
-- What `does_disk_contain_dump` and `disk_load_dump` find on a disk that `disk_store_dump` wrote.
use switch_os.Base.{ℕ, ◌+◌, ◌*◌, ◌≤◌, ◌<◌, ◌≡◌, ◌≢◌, ◌∙◌, ap, sym, arith, true}
use mathlib.Core.Path.{subst}
use switch_os.Base.Action.{ok}
use switch_os.Base.Bytes.{blit}
use switch_os.Core.Header.{CoreHeader, max_ram_areas}
use switch_os.Core.Disk.{BlkDriver, Works, At}
use switch_os.Core.Dump.{
  read_dump_header, is_dump_header_valid, load_loop, disk_store_dump, does_disk_contain_dump,
  disk_load_dump,
}
use switch_os.Core.Dump.Layout.{DiskMemArea, DumpHeader, header_size, get_header}
use switch_os.Core.Dump.HeaderIo
use switch_os.Core.Dump.HeaderIo.{header_on}
use switch_os.Core.Dump.Areas.{position}
use switch_os.Core.Dump.Fill.{Filled}
use switch_os.Core.Dump.Transfer.{load_loop-Loaded}
use switch_os.Core.Dump.Valid.{is_dump_header_valid-ok}
use switch_os.Core.Dump.Exchange.{saved_vector}
use switch_os.Core.Dump.StoreLoad.{
  Dumpable, Dumped, Same-Filled, areas_Separate, areas_Sectors, filled-Valid,
  disk_store_dump-Dumped,
}

module _ (d : BlkDriver) (g : CoreHeader) (header_at switch_buf : ℕ) (ready : d.Machine → Type 0)
    (works : Works d ready) (good : Dumpable g header_at) where
  open d use {Machine, ram, disk}

  -- The header that a later read finds.
  read_back :
      (vector : ℕ) (s : Machine)
      → ready s
      → Filled g vector (header_on (disk s))
      → (k : DumpHeader) × (t : Machine) × (read_dump_header d g header_at switch_buf s ≡ (ok k, t))
        × Filled g vector k
        × At d ready (blit (ram s) header_at (disk s) 0 header_size) (disk s) t
  read_back vector s r filled =
      let few : (header_on (disk s)).areas_size ≤ max_ram_areas = rw filled.count good.whole.few in
      let m = blit (ram s) header_at (disk s) 0 header_size in
      let (t, a, at) = HeaderIo.read_dump_header-runs d g header_at switch_buf ready works s r in
      let same =
        HeaderIo.get_header-blit (ram s) (disk s) header_at 0 header_size (omega arith) few in
      (
        get_header header_at m,
        t,
        a,
        Same-Filled d g header_at switch_buf ready works good vector (get_header header_at m)
            (header_on (disk s)) same filled,
        at,
      )

  checked :
      (vector : ℕ) (k : DumpHeader) (t : Machine)
      → vector ≢ 0
      → Filled g vector k
      → is_dump_header_valid g k t ≡ (ok true, t)
  checked vector k t awake filled =
      is_dump_header_valid-ok t g k (rw filled.count good.whole.few)
        (filled-Valid g header_at good vector k filled awake)

  contains_runs :
      (k : DumpHeader) (s t : Machine)
      → read_dump_header d g header_at switch_buf s ≡ (ok k, t)
      → is_dump_header_valid g k t ≡ (ok true, t)
      → does_disk_contain_dump d g header_at switch_buf s ≡ (ok true, t)
  unfolding does_disk_contain_dump
  contains_runs k s t a b = rw a b

  load_dump_runs :
      (k : DumpHeader) (s t w : Machine)
      → read_dump_header d g header_at switch_buf s ≡ (ok k, t)
      → is_dump_header_valid g k t ≡ (ok true, t)
      → load_loop d g header_at switch_buf k.areas_size 0 k.areas t ≡ (ok tt, w)
      → disk_load_dump d g header_at switch_buf s ≡ (ok k.waking_vector, w)
  unfolding disk_load_dump
  load_dump_runs k s t w a b c = rw (a, b, c)

  -- Memory holds what the memory of `s` held, in every recorded area.
  abbrev pub SameAreas : Machine → Machine → Type 0
  SameAreas s w =
      (j x : ℕ)
      → j < g.ram_areas_size
      → x < (g.ram_areas j).size
      → ram w ((g.ram_areas j).start + x) ≡ ram s ((g.ram_areas j).start + x)

  load_back :
      (s v s' : Machine)
      → saved_vector g (ram s) ≢ 0
      → Dumped d g header_at switch_buf ready works good s v
      → ready s'
      → disk s' ≡ disk v
      → (w : Machine) × (disk_load_dump d g header_at switch_buf s'
          ≡ (ok (saved_vector g (ram s)), w))
        × SameAreas s w
  load_back s v s' awake dumped r same_disk =
      let vector = saved_vector g (ram s) in
      let n = g.ram_areas_size in
      let (k, t, a, filled, at) = read_back vector s' r (rw same_disk dumped.header) in
      let (w, c, q) =
        load_loop-Loaded d ready g header_at switch_buf works k.areas n 0 t at.is_ready
          (areas_Sectors g header_at good vector k filled)
          (areas_Separate g header_at good vector k filled) in
      (
        w,
        load_dump_runs k s' t w a (checked vector k t awake filled) (rw filled.count c)
            ∙ ap (λ z. (ok z, w)) filled.waking_vector,
        λ j x e f.
            ap (λ (l : DiskMemArea). ram w (l.start + x)) (sym (filled.area j e))
            ∙ q.loaded j x (omega arith) (omega arith) (rw (filled.area j e) f)
            ∙ ap (λ m. m (position k.areas j + x)) (at.disk_eq ∙ same_disk)
            ∙ ap (λ (l : DiskMemArea). disk v (512 * l.sector + x)) (filled.area j e)
            ∙ dumped.stored j x e f,
      )

  contains_after :
      (s v s' : Machine)
      → saved_vector g (ram s) ≢ 0
      → Dumped d g header_at switch_buf ready works good s v
      → ready s'
      → disk s' ≡ disk v
      → (t : Machine) × (does_disk_contain_dump d g header_at switch_buf s' ≡ (ok true, t))
        × (disk t ≡ disk v)
  contains_after s v s' awake dumped r same_disk =
      let vector = saved_vector g (ram s) in
      let (k, t, a, filled, at) = read_back vector s' r (rw same_disk dumped.header) in
      (t, contains_runs k s' t a (checked vector k t awake filled), at.disk_eq ∙ same_disk)

  -- For areas of whole sectors below 4 GiB each that share no byte with one another or with the
  -- header's buffer, and a waking vector in the FACS: when `disk_store_dump` has ended in machine
  -- `v`, then in whatever state the machine is later,
  -- so long as it can take requests and the disk is what it was in `v`, `does_disk_contain_dump`
  -- answers true and leaves the disk alone, and `disk_load_dump` hands out the waking vector of the
  -- stored system and puts every recorded byte of memory back.
  pub store_then_load :
      (s v s' : Machine)
      → ready s
      → saved_vector g (ram s) ≢ 0
      → disk_store_dump d g header_at switch_buf s ≡ (ok tt, v)
      → ready s'
      → disk s' ≡ disk v
      → ((t : Machine) × (does_disk_contain_dump d g header_at switch_buf s' ≡ (ok true, t))
          × (disk t ≡ disk v))
        × ((w : Machine) × (disk_load_dump d g header_at switch_buf s'
              ≡ (ok (saved_vector g (ram s)), w))
            × SameAreas s w)
  store_then_load s v s' r awake e r' same =
      let (v₀, e₀, dumped₀) =
        disk_store_dump-Dumped d g header_at switch_buf ready works good s r awake in
      let v_eq : v₀ ≡ v = cc in
      let dumped = subst (Dumped d g header_at switch_buf ready works good s) v_eq dumped₀ in
      (contains_after s v s' awake dumped r' same, load_back s v s' awake dumped r' same)
