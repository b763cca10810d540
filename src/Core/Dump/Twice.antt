-- ===== src/Core/Dump/Twice.antt =====
-- Switching to the other system and back: the memory is what it was.
use switch_os.Base.{ℕ, ◌+◌, ◌*◌, ◌<◌, ◌≤◌, ◌≡◌, ◌≢◌, ◌∙◌, ap, sym}
use switch_os.Base.Action.{ok}
use switch_os.Core.Header.{CoreHeader, max_ram_areas}
use switch_os.Core.Disk.{BlkDriver, Works}
use switch_os.Core.Dump.{disk_switch_dump}
use switch_os.Core.Dump.Layout.{DiskMemArea, DumpHeader}
use switch_os.Core.Dump.HeaderIo.{header_on}
use switch_os.Core.Dump.Areas.{position}
use switch_os.Core.Dump.Valid.{Valid}
use switch_os.Core.Dump.Exchange.{Placed, saved_vector, Exchanged, disk_switch_dump-Exchanged}
use switch_os.Core.Dump.SameAreas.{Valid-Same, Usable-Same, Separate-Same}

module _ (h k : DumpHeader) (count : h.areas_size ≡ k.areas_size)
    (same : (j : ℕ) → j < k.areas_size → h.areas j ≡ k.areas j) where
  pub Placed-areas :
      (g : CoreHeader) (header_at switch_buf : ℕ)
      → Placed g header_at switch_buf k
      → Placed g header_at switch_buf h
  Placed-areas g header_at switch_buf p = record {
    usable = rw count (Usable-Same h.areas k.areas k.areas_size same switch_buf p.usable);
    separate = rw count (Separate-Same h.areas k.areas k.areas_size same p.separate);
    behind = λ j a. rw (same j (below j a)) (p.behind j (below j a));
    header_apart = λ j a. rw (same j (below j a)) (p.header_apart j (below j a));
    buffers_apart = p.buffers_apart;
    facs_header = p.facs_header;
    facs_buf = p.facs_buf;
    facs_areas = λ j a. rw (same j (below j a)) (p.facs_areas j (below j a));
  }
    where
      below : (j : ℕ) → j < h.areas_size → j < k.areas_size
      below j a = rw count at a

module _ (d : BlkDriver) (g : CoreHeader) (header_at switch_buf : ℕ) (ready : d.Machine → Type 0)
    (works : Works d ready) where
  open d use {Machine, ram, disk}

  -- Memory and dump are what they were, area by area.
  pub record Restored (h : DumpHeader) (s w : Machine) : Type 0 where
    pub ram_back :
        (j x : ℕ)
        → j < h.areas_size
        → x < (h.areas j).size
        → ram w ((h.areas j).start + x) ≡ ram s ((h.areas j).start + x)
    pub disk_back :
        (j x : ℕ)
        → j < h.areas_size
        → x < (h.areas j).size
        → disk w (position h.areas j + x) ≡ disk s (position h.areas j + x)

  Exchanged-twice :
      (h k : DumpHeader) (s v w : Machine)
      → k.areas_size ≡ h.areas_size
      → ((j : ℕ) → j < h.areas_size → k.areas j ≡ h.areas j)
      → Exchanged d g header_at switch_buf ready h s v
      → Exchanged d g header_at switch_buf ready k v w
      → Restored h s w
  Exchanged-twice h k s v w count same p q = record {
    ram_back = λ j x a b.
        ap (λ (r : DiskMemArea). ram w (r.start + x)) (sym (same j a))
        ∙ q.loaded j x (rw count a) (rw (same j a) b)
        ∙ ap (λ (r : DiskMemArea). disk v (512 * r.sector + x)) (same j a)
        ∙ p.stored j x a b;
    disk_back = λ j x a b.
        ap (λ (r : DiskMemArea). disk w (512 * r.sector + x)) (sym (same j a))
        ∙ q.stored j x (rw count a) (rw (same j a) b)
        ∙ ap (λ (r : DiskMemArea). ram v (r.start + x)) (same j a)
        ∙ p.loaded j x a b;
  }

  -- Under the hypotheses of one switch, a second one also succeeds. The first hands out the dump's
  -- waking vector, the second that of the system which was running at first, and afterwards every
  -- area of memory and its copy on the disk are byte for byte what they were.
  pub disk_switch_dump_twice :
      (s : Machine) (out out' : ℕ)
      → ready s
      → g.ram_areas_size ≤ max_ram_areas
      → Valid g (header_on (disk s))
      → Placed g header_at switch_buf (header_on (disk s))
      → saved_vector g (ram s) ≢ 0
      → (v : Machine) × (disk_switch_dump d g header_at switch_buf (s, out)
          ≡ (ok tt, (v, (header_on (disk s)).waking_vector)))
        × (w : Machine) × (disk_switch_dump d g header_at switch_buf (v, out')
            ≡ (ok tt, (w, saved_vector g (ram s))))
        × Restored (header_on (disk s)) s w
  disk_switch_dump_twice s out out' r few valid placed awake =
      let h = header_on (disk s) in
      let (v, e, p) =
        disk_switch_dump-Exchanged d g header_at switch_buf ready works s out r few valid placed
          awake in
      let k = header_on (disk v) in
      let valid' =
        Valid-Same k (record h { waking_vector = saved_vector g (ram s) }) p.header g
          (record {
            magic = valid.magic;
            waking_vector = awake;
            some_area = valid.some_area;
            count = valid.count;
            area = valid.area;
          }) in
      let (w, f, q) =
        disk_switch_dump-Exchanged d g header_at switch_buf ready works v out' p.is_ready few valid'
          (Placed-areas k h p.header.areas_size p.header.area g header_at switch_buf placed)
          (λ z. awake (sym p.vector ∙ z)) in
      (
        v,
        e,
        w,
        f ∙ ap (λ z. (ok tt, (w, z))) p.header.waking_vector,
        Exchanged-twice h k s v w p.header.areas_size p.header.area p q,
      )
