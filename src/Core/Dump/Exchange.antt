-- ===== src/Core/Dump/Exchange.antt =====
-- `disk_switch_dump` as a whole: the running system and the one on the disk trade places.
use switch_os.Base.{ℕ, ◌+◌, ◌≤◌, ◌<◌, ◌≡◌, ◌≢◌, ◌∙◌, ap, arith, true}
use switch_os.Base.Action.{ok}
use switch_os.Base.Bytes.{
  Bytes, load32, blit, IsBytes, load32-lt, blit-IsBytes, blit-Outside, Outside, Apart,
}
use switch_os.Core.Header.{CoreHeader, max_ram_areas}
use switch_os.Core.Disk.{BlkDriver, Works, At}
use switch_os.Core.Dump.{
  switch_buf_size, facs_rsvd1, find_original_waking_vector, read_dump_header, write_dump_header,
  is_dump_header_valid, switch_areas, disk_switch_dump,
}
use switch_os.Core.Dump.Layout.{DumpHeader, header_size, put_header, get_header}
use switch_os.Core.Dump.Layout.RoundTrip.{Fits, Same, put_header-Outside}
use switch_os.Core.Dump.HeaderIo
use switch_os.Core.Dump.HeaderIo.{header_on}
use switch_os.Core.Dump.Areas.{position, Separate, SwapsAll, AllUsable, switch_areas-SwapsAll}
use switch_os.Core.Dump.Valid.{Valid, is_dump_header_valid-ok}
use switch_os.Core.Dump.SameAreas.{Valid-Same, Usable-Same, Separate-Same, SwapsAll-Same}

-- Where the buffers and the areas of a dump lie: nothing overlaps.
pub record Placed (g : CoreHeader) (header_at switch_buf : ℕ) (h : DumpHeader) : Type 0 where
  pub usable : AllUsable h.areas switch_buf h.areas_size 0
  pub separate : Separate h.areas h.areas_size 0
  pub behind : (j : ℕ) → j < h.areas_size → header_size ≤ position h.areas j
  pub header_apart :
      (j : ℕ) → j < h.areas_size → Apart header_at header_size (h.areas j).start (h.areas j).size
  pub buffers_apart : Apart header_at header_size switch_buf switch_buf_size
  pub facs_header : Apart (g.facs + facs_rsvd1) 4 header_at header_size
  pub facs_buf : Apart (g.facs + facs_rsvd1) 4 switch_buf switch_buf_size
  pub facs_areas :
      (j : ℕ) → j < h.areas_size → Apart (g.facs + facs_rsvd1) 4 (h.areas j).start (h.areas j).size

-- The waking vector that the `_PTS` hook saved in the FACS.
abbrev pub saved_vector : CoreHeader → Bytes → ℕ
saved_vector g m = load32 m (g.facs + facs_rsvd1)

module _ (d : BlkDriver) (g : CoreHeader) (header_at switch_buf : ℕ)
    (ready : d.Machine → Type 0) where
  open d use {Machine, ram, disk}

  -- From `s` to `u` the memory and the dump under header `h` have traded places.
  pub record Exchanged (h : DumpHeader) (s u : Machine) : Type 0 where
    pub is_ready : ready u
    pub loaded :
        (j x : ℕ)
        → j < h.areas_size
        → x < (h.areas j).size
        → ram u ((h.areas j).start + x) ≡ disk s (position h.areas j + x)
    pub stored :
        (j x : ℕ)
        → j < h.areas_size
        → x < (h.areas j).size
        → disk u (position h.areas j + x) ≡ ram s ((h.areas j).start + x)
    pub header : Same (header_on (disk u)) (record h { waking_vector = saved_vector g (ram s) })
    pub vector : saved_vector g (ram u) ≡ saved_vector g (ram s)
    pub ram_frame :
        (x : ℕ)
        → ((j : ℕ) → j < h.areas_size → Outside (h.areas j).start (h.areas j).size x)
        → Outside switch_buf switch_buf_size x
        → Outside header_at header_size x
        → ram u x ≡ ram s x
    pub disk_frame :
        (x : ℕ)
        → ((j : ℕ) → j < h.areas_size → Outside (position h.areas j) (h.areas j).size x)
        → header_size ≤ x
        → disk u x ≡ disk s x

  Exchanged-intro :
      (h : DumpHeader) (s t u v : Machine) (k : DumpHeader)
      → h.areas_size ≤ max_ram_areas
      → Placed g header_at switch_buf h
      → Same k (record h { waking_vector = saved_vector g (ram s) })
      → Fits k
      → At d ready (blit (ram s) header_at (disk s) 0 header_size) (disk s) t
      → SwapsAll h.areas d switch_buf ready h.areas_size 0 t u
      → let m = put_header k header_at (ram u) in
        At d ready m (blit (disk u) 0 m header_at header_size) v → Exchanged h s v
  Exchanged-intro h s t u v k few placed same fits at swaps at' = record {
    is_ready = at'.is_ready;
    loaded = λ j x a b.
        ram_v (ram_of j x) (omega (arith, placed.header_apart j a))
        ∙ swaps.loaded j x (omega arith) (omega arith) b
        ∙ ap (λ f. f (position h.areas j + x)) at.disk_eq;
    stored = λ j x a b.
        disk_v (position h.areas j + x) (omega (arith, placed.behind j a))
        ∙ swaps.stored j x (omega arith) (omega arith) b
        ∙ ram_t (ram_of j x) (omega (arith, placed.header_apart j a));
    header =
        let written =
          HeaderIo.header_on-written header_at k (ram u) (disk u) fits (rw same.areas_size few) in
        HeaderIo.Same-trans (rw at'.disk_eq written) same;
    vector = HeaderIo.load32-frame (ram s) (ram v) (g.facs + facs_rsvd1) (λ x a b.
        frame x (λ j c. omega (arith, placed.facs_areas j c)) (omega (arith, placed.facs_buf))
          (omega (arith, placed.facs_header)));
    ram_frame = frame;
    disk_frame = λ x o b.
        disk_v x b ∙ swaps.disk_frame x (λ j a c. o j (omega arith)) ∙ ap (λ f. f x) at.disk_eq;
  }
    where
      ram_of : (j x : ℕ) → ℕ
      ram_of j x = (h.areas j).start + x

      ram_v : (x : ℕ) → Outside header_at header_size x → ram v x ≡ ram u x
      ram_v x o = ap (λ f. f x) at'.ram_eq ∙ put_header-Outside k header_at (ram u) x o

      ram_t : (x : ℕ) → Outside header_at header_size x → ram t x ≡ ram s x
      ram_t x o =
          ap (λ f. f x) at.ram_eq ∙ blit-Outside (ram s) header_at (disk s) 0 header_size x o

      disk_v : (x : ℕ) → header_size ≤ x → disk v x ≡ disk u x
      disk_v x o =
          ap (λ f. f x) at'.disk_eq
          ∙ blit-Outside (disk u) 0 (put_header k header_at (ram u)) header_at header_size x
              (omega arith)

      frame :
          (x : ℕ)
          → ((j : ℕ) → j < h.areas_size → Outside (h.areas j).start (h.areas j).size x)
          → Outside switch_buf switch_buf_size x
          → Outside header_at header_size x
          → ram v x ≡ ram s x
      frame x o b c = ram_v x c ∙ swaps.ram_frame x (λ j a e. o j (omega arith)) b ∙ ram_t x c

  module _ (works : Works d ready) where
    -- The calls of `disk_switch_dump`, one after the other.
    switch_dump_runs :
        (h : DumpHeader) (s t u v : Machine) (out vector : ℕ)
        → read_dump_header d g header_at switch_buf s ≡ (ok h, t)
        → is_dump_header_valid g h t ≡ (ok true, t)
        → switch_areas d g header_at switch_buf h.areas_size 0 h.areas t ≡ (ok tt, u)
        → find_original_waking_vector d g header_at switch_buf u ≡ (ok vector, u)
        → write_dump_header d g header_at switch_buf (record h { waking_vector = vector }) u
          ≡ (ok tt, v)
        → disk_switch_dump d g header_at switch_buf (s, out) ≡ (ok tt, (v, h.waking_vector))
    unfolding disk_switch_dump
    switch_dump_runs h s t u v out vector a b c e f = rw (a, b, c, e, f)

    middle :
        (h k : DumpHeader) (s t u : Machine)
        → Same k h
        → h.areas_size ≤ max_ram_areas
        → Placed g header_at switch_buf h
        → At d ready (blit (ram s) header_at (disk s) 0 header_size) (disk s) t
        → SwapsAll h.areas d switch_buf ready h.areas_size 0 t u
        → saved_vector g (ram u) ≡ saved_vector g (ram s)
    middle h k s t u same few placed at swaps =
        HeaderIo.load32-frame (ram s) (ram u) (g.facs + facs_rsvd1) (λ x a b.
          swaps.ram_frame x (λ j c e. omega (arith, placed.facs_areas j (omega arith)))
            (omega (arith, placed.facs_buf))
          ∙ ap (λ f. f x) at.ram_eq
          ∙ blit-Outside (ram s) header_at (disk s) 0 header_size x
              (omega (arith, placed.facs_header)))

    -- What follows once the header `k` has been read in place of `h`.
    after_read :
        (h k : DumpHeader) (s t : Machine) (out : ℕ)
        → Same k h
        → Fits k
        → IsBytes (ram s)
        → h.areas_size ≤ max_ram_areas
        → Valid g h
        → Placed g header_at switch_buf h
        → saved_vector g (ram s) ≢ 0
        → read_dump_header d g header_at switch_buf s ≡ (ok k, t)
        → At d ready (blit (ram s) header_at (disk s) 0 header_size) (disk s) t
        → (v : Machine) × (disk_switch_dump d g header_at switch_buf (s, out)
            ≡ (ok tt, (v, h.waking_vector)))
          × Exchanged h s v
    after_read h k s t out same fits bytes few valid placed awake read at =
        let n = h.areas_size in
        let areas_same : (j : ℕ) → j < n → k.areas j ≡ h.areas j = same.area in
        let checked =
          is_dump_header_valid-ok t g k (rw same.areas_size few) (Valid-Same k h same g valid) in
        let (u, c, swaps') =
          switch_areas-SwapsAll k.areas d switch_buf ready g header_at works n 0 t at.is_ready
            (Usable-Same k.areas h.areas n areas_same switch_buf placed.usable)
            (Separate-Same k.areas h.areas n areas_same placed.separate) in
        let swaps = SwapsAll-Same k.areas h.areas n areas_same d switch_buf ready t u swaps' in
        let kept = middle h k s t u same few placed at swaps in
        let found =
          HeaderIo.find_original_waking_vector-runs d g header_at switch_buf ready works u
            (rw kept awake) in
        let k' : DumpHeader = record k { waking_vector = saved_vector g (ram u) } in
        let (v, f, at') =
          HeaderIo.write_dump_header-runs d g header_at switch_buf ready works k' u
            swaps.is_ready in
        (
          v,
          switch_dump_runs k s t u v out (saved_vector g (ram u)) read checked
                (rw same.areas_size c) found f
              ∙ ap (λ w. (ok tt, (v, w))) same.waking_vector,
          Exchanged-intro h s t u v k' few placed
              (record {
                magic = same.magic;
                waking_vector = kept;
                areas_size = same.areas_size;
                area = same.area;
              })
              (record {
                magic = fits.magic;
                waking_vector = rw kept (load32-lt (ram s) (g.facs + facs_rsvd1) bytes);
                areas_size = fits.areas_size;
                area = fits.area;
              })
              at swaps at',
        )

    -- When the disk holds a valid dump, the buffers, the areas and the FACS do not overlap, and the
    -- FACS holds a waking vector, `disk_switch_dump` succeeds and hands out the dump's waking
    -- vector. Every byte of every area has then traded places with its copy on the disk, the
    -- header on the disk holds the vector of the system that was running, and no other byte of the
    -- disk or of memory outside the two buffers has changed.
    pub disk_switch_dump-Exchanged :
        (s : Machine) (out : ℕ)
        → ready s
        → g.ram_areas_size ≤ max_ram_areas
        → Valid g (header_on (disk s))
        → Placed g header_at switch_buf (header_on (disk s))
        → saved_vector g (ram s) ≢ 0
        → (v : Machine) × (disk_switch_dump d g header_at switch_buf (s, out)
            ≡ (ok tt, (v, (header_on (disk s)).waking_vector)))
          × Exchanged (header_on (disk s)) s v
    disk_switch_dump-Exchanged s out r few valid placed awake =
        let bytes = works.ready-IsBytes r in
        let h_few : (header_on (disk s)).areas_size ≤ max_ram_areas = rw valid.count few in
        let m₁ = blit (ram s) header_at (disk s) 0 header_size in
        let (t, a, at) = HeaderIo.read_dump_header-runs d g header_at switch_buf ready works s r in
        after_read (header_on (disk s)) (get_header header_at m₁) s t out
          (HeaderIo.get_header-blit (ram s) (disk s) header_at 0 header_size (omega arith) h_few)
          (HeaderIo.get_header-Fits header_at m₁
            (blit-IsBytes (ram s) (disk s) header_at 0 header_size bytes.0 bytes.1))
          bytes.0 h_few valid placed awake a at
