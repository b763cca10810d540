-- ===== src/Core/Main/Switch.antt =====
-- `core_main` (core/core.c) with the action to switch to a dump that is there.
use switch_os.Base.{ℕ, ◌+◌, ◌≤◌, ◌<◌, ◌≡◌, ◌≢◌, ◌∙◌, ap, sym, refl, Bool, true, false, ◌==◌, arith}
use switch_os.Base.Action.{⊤, Action, ok}
use switch_os.Base.Bytes.{Bytes, load32, blit, blit-Outside, Outside}
use switch_os.Core.Header.{
  CoreHeader, core_action_store, core_action_switch, is_core_header_valid, max_ram_areas,
}
use switch_os.Core.Disk.{BlkDriver, Works, At}
use switch_os.Core.Dump.{
  find_original_waking_vector, read_dump_header, is_dump_header_valid, does_disk_contain_dump,
  disk_switch_dump,
}
use switch_os.Core.Dump.Layout.{DumpHeader, header_size, get_header}
use switch_os.Core.Dump.HeaderIo
use switch_os.Core.Dump.HeaderIo.{header_on}
use switch_os.Core.Dump.Areas.{position}
use switch_os.Core.Dump.Valid.{Valid, is_dump_header_valid-ok, is_dump_header_valid_iff}
use switch_os.Core.Dump.Layout.RoundTrip.{Same}
use switch_os.Core.Dump.SameAreas.{Valid-Same}
use switch_os.Core.Dump.Exchange.{saved_vector, Placed, Exchanged, disk_switch_dump-Exchanged}
use switch_os.Core.Main.{Acpi, core_attempt, core_main}
use switch_os.Core.Main.Store.{sleeping, vector_found}

module _ (d : BlkDriver) (g : CoreHeader) (header_at switch_buf : ℕ) (ready : d.Machine → Type 0)
    (works : Works d ready) where
  open d use {Machine, ram, disk}

  contains_runs :
      (k : DumpHeader) (s t : Machine)
      → read_dump_header d g header_at switch_buf s ≡ (ok k, t)
      → is_dump_header_valid g k t ≡ (ok true, t)
      → does_disk_contain_dump d g header_at switch_buf s ≡ (ok true, t)
  unfolding does_disk_contain_dump
  contains_runs k s t a b = rw a b

  -- A valid dump is found, and only the header's buffer has changed.
  dump_found :
      (s : Machine)
      → ready s
      → g.ram_areas_size ≤ max_ram_areas
      → Valid g (header_on (disk s))
      → (t : Machine) × (does_disk_contain_dump d g header_at switch_buf s ≡ (ok true, t))
        × At d ready (blit (ram s) header_at (disk s) 0 header_size) (disk s) t
  dump_found s r few valid =
      let h_few : (header_on (disk s)).areas_size ≤ max_ram_areas = rw valid.count few in
      let m = blit (ram s) header_at (disk s) 0 header_size in
      let k = get_header header_at m in
      let same =
        HeaderIo.get_header-blit (ram s) (disk s) header_at 0 header_size (omega arith) h_few in
      let (t, a, at) = HeaderIo.read_dump_header-runs d g header_at switch_buf ready works s r in
      let k_few : k.areas_size ≤ max_ram_areas = rw same.areas_size h_few in
      (
        t,
        contains_runs k s t a
            (is_dump_header_valid-ok t g k k_few (Valid-Same k (header_on (disk s)) same g valid)),
        at,
      )

  misses_runs :
      (k : DumpHeader) (b : Bool) (s t : Machine)
      → read_dump_header d g header_at switch_buf s ≡ (ok k, t)
      → is_dump_header_valid g k t ≡ (ok b, t)
      → does_disk_contain_dump d g header_at switch_buf s ≡ (ok b, t)
  unfolding does_disk_contain_dump
  misses_runs k b s t a e = rw a e

  -- A header that is not valid is noticed, and only the header's buffer has changed.
  dump_missed :
      (s : Machine)
      → ready s
      → (header_on (disk s)).areas_size ≤ max_ram_areas
      → ¬ Valid g (header_on (disk s))
      → (t : Machine) × (does_disk_contain_dump d g header_at switch_buf s ≡ (ok false, t))
        × At d ready (blit (ram s) header_at (disk s) 0 header_size) (disk s) t
  dump_missed s r few not_valid =
      let m = blit (ram s) header_at (disk s) 0 header_size in
      let k = get_header header_at m in
      let same =
        HeaderIo.get_header-blit (ram s) (disk s) header_at 0 header_size (omega arith) few in
      let (t, a, at) = HeaderIo.read_dump_header-runs d g header_at switch_buf ready works s r in
      let (b, e, iff) = is_dump_header_valid_iff t g k (rw same.areas_size few) in
      let back : Valid g k → ⊥ =
        λ v. not_valid (Valid-Same (header_on (disk s)) k (Same-sym same) g v) in
      (t, misses_runs k false s t a (e ∙ ap (λ b. (ok b, t)) (no_true b iff.0 back)), at)
    where
      no_true : (b : Bool) {P : Type 0} → (b ≡ true → P) → (P → ⊥) → b ≡ false
      no_true true f g = absurd (g (f refl))
      no_true false f g = refl

      Same-sym : {h k : DumpHeader} → Same h k → Same k h
      Same-sym p = record {
        magic = sym p.magic;
        waking_vector = sym p.waking_vector;
        areas_size = sym p.areas_size;
        area = λ i q. sym (p.area i (rw (← p.areas_size) q));
      }

  -- Reading the header into its buffer first makes no difference to what is exchanged.
  Exchanged-earlier :
      (h : DumpHeader) (s t v : Machine)
      → ram t ≡ blit (ram s) header_at (disk s) 0 header_size
      → disk t ≡ disk s
      → Placed g header_at switch_buf h
      → saved_vector g (ram t) ≡ saved_vector g (ram s)
      → Exchanged d g header_at switch_buf ready h t v
      → Exchanged d g header_at switch_buf ready h s v
  Exchanged-earlier h s t v same_ram same_disk placed same_vector e = record {
    is_ready = e.is_ready;
    loaded = λ j x a b. e.loaded j x a b ∙ ap (λ f. f (position h.areas j + x)) same_disk;
    stored = λ j x a b. e.stored j x a b ∙ beside _ (inside j x a b);
    header = rw (sym same_vector) e.header;
    vector = e.vector ∙ same_vector;
    ram_frame = λ x o p q. e.ram_frame x o p q ∙ beside x q;
    disk_frame = λ x o p. e.disk_frame x o p ∙ ap (λ f. f x) same_disk;
  }
    where
      beside : (x : ℕ) → Outside header_at header_size x → ram t x ≡ ram s x
      beside x o =
          ap (λ m. m x) same_ram ∙ blit-Outside (ram s) header_at (disk s) 0 header_size x o

      inside :
          (j x : ℕ)
          → j < h.areas_size
          → x < (h.areas j).size
          → Outside header_at header_size ((h.areas j).start + x)
      inside j x a b = omega (arith, placed.header_apart j a, b)

  vector_kept :
      (h : DumpHeader) (s : Machine) (m : Bytes)
      → m ≡ blit (ram s) header_at (disk s) 0 header_size
      → Placed g header_at switch_buf h
      → saved_vector g m ≡ saved_vector g (ram s)
  vector_kept h s m e placed =
      let same = blit-Outside (ram s) header_at (disk s) 0 header_size in
      ap (saved_vector g) e
      ∙ words (blit (ram s) header_at (disk s) 0 header_size) (ram s) (g.facs + 40)
          (same (g.facs + 40) (omega (arith, placed.facs_header)))
          (same (g.facs + 40 + 1) (omega (arith, placed.facs_header)))
          (same (g.facs + 40 + 2) (omega (arith, placed.facs_header)))
          (same (g.facs + 40 + 3) (omega (arith, placed.facs_header)))
    where
      words :
          (m n : Bytes) (a : ℕ)
          → m a ≡ n a
          → m (a + 1) ≡ n (a + 1)
          → m (a + 2) ≡ n (a + 2)
          → m (a + 3) ≡ n (a + 3)
          → load32 m a ≡ load32 n a
      words m n a e0 e1 e2 e3 = rw (e0, e1, e2, e3)

  module _ (init_allocators : Machine → Machine) (init_blk : Action Machine ⊤) (a : Acpi) where
    switch_runs :
        (s s₁ t v : Machine) (w : a.World) (vector dump_vector : ℕ)
        → is_core_header_valid g ≡ true
        → find_original_waking_vector d g header_at switch_buf (init_allocators s)
          ≡ (ok vector, init_allocators s)
        → init_blk (init_allocators s) ≡ (ok tt, s₁)
        → (g.action == core_action_store) ≡ false
        → (g.action == core_action_switch) ≡ true
        → does_disk_contain_dump d g header_at switch_buf s₁ ≡ (ok true, t)
        → disk_switch_dump d g header_at switch_buf (t, vector) ≡ (ok tt, (v, dump_vector))
        → core_main d g header_at switch_buf init_allocators init_blk a (s, w)
          ≡ (ok tt, (v, sleeping d g header_at switch_buf init_allocators init_blk a dump_vector w))
    unfolding core_main core_attempt
    switch_runs s s₁ t v w vector dump_vector valid found started store switch contains exchange =
        rw (valid, found, started, store, switch, contains, exchange)

    -- With a valid core header and the action to switch, on a disk that started and works and holds
    -- a valid dump, with nothing overlapping and a waking vector in the FACS, `core_main` exchanges
    -- the memory of the machine that the disk started on with the dump and wakes the dumped kernel
    -- at its vector.
    pub core_main_switch-Exchanged :
        (s s₁ : Machine) (w : a.World)
        → is_core_header_valid g ≡ true
        → g.ram_areas_size ≤ max_ram_areas
        → g.action ≡ core_action_switch
        → saved_vector g (ram (init_allocators s)) ≢ 0
        → init_blk (init_allocators s) ≡ (ok tt, s₁)
        → ready s₁
        → saved_vector g (ram s₁) ≢ 0
        → Valid g (header_on (disk s₁))
        → Placed g header_at switch_buf (header_on (disk s₁))
        → (v : Machine) × (core_main d g header_at switch_buf init_allocators init_blk a (s, w) ≡ (
          ok tt,
          (
            v,
            sleeping d g header_at switch_buf init_allocators init_blk a
                (header_on (disk s₁)).waking_vector
                w,
          ),
        ))
          × Exchanged d g header_at switch_buf ready (header_on (disk s₁)) s₁ v
    core_main_switch-Exchanged s s₁ w valid few action awake started r awake₁ dump placed =
        let (t, contains, at) = dump_found s₁ r few dump in
        let same_header : header_on (disk t) ≡ header_on (disk s₁) = ap header_on at.disk_eq in
        let kept = vector_kept (header_on (disk s₁)) s₁ (ram t) at.ram_eq placed in
        let (v, e, p) =
          disk_switch_dump-Exchanged d g header_at switch_buf ready works t
            (saved_vector g (ram (init_allocators s))) at.is_ready few (rw same_header dump)
            (rw same_header placed) (λ z. awake₁ (sym kept ∙ z)) in
        (
          v,
          switch_runs s s₁ t v w (saved_vector g (ram (init_allocators s)))
              (header_on (disk s₁)).waking_vector valid
              (vector_found d g header_at switch_buf init_allocators init_blk a (init_allocators s)
                awake)
              started (ground (arith, action)) (ground (arith, action)) contains
              (e ∙ ap (λ h. (ok tt, (v, h.waking_vector))) same_header),
          Exchanged-earlier (header_on (disk s₁)) s₁ t v at.ram_eq at.disk_eq placed kept
              (rw same_header at p),
        )

    no_dump_runs :
        (s s₁ t : Machine) (w : a.World) (vector : ℕ)
        → is_core_header_valid g ≡ true
        → find_original_waking_vector d g header_at switch_buf (init_allocators s)
          ≡ (ok vector, init_allocators s)
        → init_blk (init_allocators s) ≡ (ok tt, s₁)
        → (g.action == core_action_store) ≡ false
        → (g.action == core_action_switch) ≡ true
        → does_disk_contain_dump d g header_at switch_buf s₁ ≡ (ok false, t)
        → core_main d g header_at switch_buf init_allocators init_blk a (s, w)
          ≡ (ok tt, (t, sleeping d g header_at switch_buf init_allocators init_blk a vector w))
    unfolding core_main core_attempt
    no_dump_runs s s₁ t w vector valid found started store switch e =
        rw (valid, found, started, store, switch, e)

    -- With a valid core header and the action to switch, on a disk that started and works and whose
    -- header is not that of a valid dump and counts at most 64 areas, `core_main` leaves the disk
    -- as it is and memory too but for the header's buffer, and wakes the running kernel at its own
    -- vector.
    pub core_main_no_dump :
        (s s₁ : Machine) (w : a.World)
        → is_core_header_valid g ≡ true
        → g.action ≡ core_action_switch
        → saved_vector g (ram (init_allocators s)) ≢ 0
        → init_blk (init_allocators s) ≡ (ok tt, s₁)
        → ready s₁
        → (header_on (disk s₁)).areas_size ≤ max_ram_areas
        → ¬ Valid g (header_on (disk s₁))
        → (t : Machine) × (core_main d g header_at switch_buf init_allocators init_blk a (s, w) ≡ (
          ok tt,
          (
            t,
            sleeping d g header_at switch_buf init_allocators init_blk a
                (saved_vector g (ram (init_allocators s)))
                w,
          ),
        ))
          × (disk t ≡ disk s₁)
          × ((x : ℕ) → Outside header_at header_size x → ram t x ≡ ram s₁ x)
    core_main_no_dump s s₁ w valid action awake started r few not_valid =
        let (t, contains, at) = dump_missed s₁ r few not_valid in
        (
          t,
          no_dump_runs s s₁ t w (saved_vector g (ram (init_allocators s))) valid
              (vector_found d g header_at switch_buf init_allocators init_blk a (init_allocators s)
                awake)
              started (ground (arith, action)) (ground (arith, action)) contains,
          at.disk_eq,
          λ x o.
              ap (λ m. m x) at.ram_eq ∙ blit-Outside (ram s₁) header_at (disk s₁) 0 header_size x o,
        )
