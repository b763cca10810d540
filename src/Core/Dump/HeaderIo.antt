-- ===== src/Core/Dump/HeaderIo.antt =====
-- The dump header between memory and disk: `read_dump_header`, `write_dump_header`, and the
-- waking vector in the FACS.
use switch_os.Base.{ℕ, ◌+◌, ◌*◌, ◌≤◌, ◌<◌, ◌≡◌, ◌≢◌, ◌∙◌, ap, refl, arith, false, ◌==◌}
use switch_os.Base.Action.{ok}
use switch_os.Base.Bytes.{Bytes, load32, load64, blit, blit-inside, IsBytes, load32-lt, load64-lt}
use switch_os.Core.Header.{CoreHeader, max_ram_areas}
use switch_os.Core.Disk.{BlkDriver, Works, At}
use switch_os.Core.Dump.{
  facs_rsvd1, find_original_waking_vector, read_dump_header, write_dump_header,
}
use switch_os.Core.Dump.Layout.{DumpHeader, header_size, put_header, get_area, get_header}
use switch_os.Core.Dump.Layout.RoundTrip.{
  DiskMemArea_eq, Fits, Same, get-put_header, put_header-IsBytes,
}

-- The header that a disk holds.
abbrev pub header_on : Bytes → DumpHeader
header_on f = get_header 0 f

-- Words of a copy are words of what was copied.
module _ (m f : Bytes) (a b n : ℕ) where
  load32-blit :
      (o p q : ℕ) → p ≡ a + o → q ≡ b + o → o + 4 ≤ n → load32 (blit m a f b n) p ≡ load32 f q
  load32-blit o p q e e' fits = omega (
    arith,
    byte 0 (omega arith) (p + 0) (q + 0) (omega arith) (omega arith),
    ap (blit m a f b n) (add_zero p),
    ap f (add_zero q),
    byte 1 (omega arith) (p + 1) (q + 1) (omega arith) (omega arith),
    byte 2 (omega arith) (p + 2) (q + 2) (omega arith) (omega arith),
    byte 3 (omega arith) (p + 3) (q + 3) (omega arith) (omega arith),
  )
    where
      add_zero : (x : ℕ) → x + 0 ≡ x
      add_zero x = omega arith

      byte :
          (k : ℕ) → k < 4 → (x y : ℕ) → x ≡ a + (o + k) → y ≡ b + (o + k) → blit m a f b n x ≡ f y
      byte k h x y ex ey = rw (ex, ey) (blit-inside m a f b n (o + k) (omega arith))

  load64-blit :
      (o p q : ℕ) → p ≡ a + o → q ≡ b + o → o + 8 ≤ n → load64 (blit m a f b n) p ≡ load64 f q
  load64-blit o p q e e' fits = omega (
    arith,
    load32-blit o p q e e' (omega arith),
    load32-blit (o + 4) (p + 4) (q + 4) (omega arith) (omega arith) (omega arith),
  )

  get_area-blit :
      (i : ℕ) → header_size ≤ n → i < max_ram_areas → get_area a (blit m a f b n) i ≡ get_area b f i
  unfolding get_area
  get_area-blit i fits p =
      DiskMemArea_eq
        (load64-blit (16 + 24 * i) (a + 16 + 24 * i) (b + 16 + 24 * i) (omega arith) (omega arith)
          (omega arith))
        (load64-blit (24 + 24 * i) (a + 24 + 24 * i) (b + 24 + 24 * i) (omega arith) (omega arith)
          (omega arith))
        (load32-blit (32 + 24 * i) (a + 32 + 24 * i) (b + 32 + 24 * i) (omega arith) (omega arith)
          (omega arith))

  -- A header that is copied whole is the same header.
  pub get_header-blit :
      header_size ≤ n
      → (get_header b f).areas_size ≤ max_ram_areas
      → Same (get_header a (blit m a f b n)) (get_header b f)
  unfolding get_header
  get_header-blit fits few = record {
    magic = load32-blit 0 a b (omega arith) (omega arith) (omega arith);
    waking_vector = load32-blit 4 (a + 4) (b + 4) (omega arith) (omega arith) (omega arith);
    areas_size = load32-blit 8 (a + 8) (b + 8) (omega arith) (omega arith) (omega arith);
    area = λ i p. get_area-blit i fits (omega arith);
  }

pub Same-trans : {h k l : DumpHeader} → Same h k → Same k l → Same h l
Same-trans p q = record {
  magic = p.magic ∙ q.magic;
  waking_vector = p.waking_vector ∙ q.waking_vector;
  areas_size = p.areas_size ∙ q.areas_size;
  area = λ i h. p.area i (rw q.areas_size h) ∙ q.area i h;
}

-- A header read from bytes fits its fields.
pub get_header-Fits : (a : ℕ) (m : Bytes) → IsBytes m → Fits (get_header a m)
unfolding get_header get_area
get_header-Fits a m small = record {
  magic = load32-lt m a small;
  waking_vector = load32-lt m (a + 4) small;
  areas_size = load32-lt m (a + 8) small;
  area = λ i p. (
    load64-lt m (a + 16 + 24 * i) small,
    load64-lt m (a + 24 + 24 * i) small,
    load32-lt m (a + 32 + 24 * i) small,
  );
}

-- Words whose bytes lie outside what changed.
pub load32-frame :
    (m m' : Bytes) (a : ℕ) → ((x : ℕ) → a ≤ x → x < a + 4 → m' x ≡ m x) → load32 m' a ≡ load32 m a
load32-frame m m' a same = omega (
  arith,
  same a (omega arith) (omega arith),
  same (a + 1) (omega arith) (omega arith),
  same (a + 2) (omega arith) (omega arith),
  same (a + 3) (omega arith) (omega arith),
)

-- What is written is what a later read finds.
pub header_on-written :
    (header_at : ℕ) (h : DumpHeader) (m f : Bytes)
    → Fits h
    → h.areas_size ≤ max_ram_areas
    → Same (header_on (blit f 0 (put_header h header_at m) header_at header_size)) h
header_on-written header_at h m f fits few =
    let back = get-put_header h header_at m fits (omega arith) in
    Same-trans
      (get_header-blit f (put_header h header_at m) 0 header_at header_size (omega arith)
        (rw back.areas_size few))
      back

module _ (d : BlkDriver) (g : CoreHeader) (header_at switch_buf : ℕ) (ready : d.Machine → Type 0)
    (works : Works d ready) where
  open d use {Machine, ram, disk}

  abbrev pub now : (s : Machine) → ready s → At d ready (ram s) (disk s) s
  now s r = record { is_ready = r; ram_eq = refl; disk_eq = refl }

  -- The header is read into the buffer at `header_at`.
  pub read_dump_header-runs :
      (s : Machine)
      → ready s
      → let m = blit (ram s) header_at (disk s) 0 header_size in
        (u : Machine) × (read_dump_header d g header_at switch_buf s
          ≡ (ok (get_header header_at m), u))
        × At d ready m (disk s) u
  unfolding read_dump_header
  read_dump_header-runs s r =
      let (t, e, u, f, at) =
        works.read-Serves 0 header_at header_size (now s r) (refl, omega arith, omega arith) in
      (u, rw (e, f) (ap (λ m. (ok (get_header header_at m), u)) at.ram_eq), at)

  -- The header is stored at `header_at` and written to the first four sectors.
  pub write_dump_header-runs :
      (h : DumpHeader) (s : Machine)
      → ready s
      → let m = put_header h header_at (ram s) in
        (u : Machine) × (write_dump_header d g header_at switch_buf h s ≡ (ok tt, u))
        × At d ready m (blit (disk s) 0 m header_at header_size) u
  unfolding write_dump_header
  write_dump_header-runs h s r =
      let put =
        works.set_ram-At (put_header h header_at (ram s))
          (put_header-IsBytes h header_at (ram s) (works.ready-IsBytes r).0) (now s r) in
      let (t, e, u, f, at) =
        works.write-Serves 0 header_at header_size put (refl, omega arith, omega arith) in
      (u, rw (e, f), at)

  pub find_original_waking_vector-runs :
      (s : Machine)
      → load32 (ram s) (g.facs + facs_rsvd1) ≢ 0
      → find_original_waking_vector d g header_at switch_buf s
        ≡ (ok (load32 (ram s) (g.facs + facs_rsvd1)), s)
  unfolding find_original_waking_vector
  find_original_waking_vector-runs s awake =
      let e : (load32 (ram s) (g.facs + facs_rsvd1) == 0) ≡ false = ground arith in rw e
