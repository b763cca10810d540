-- ===== src/Core/Dump/Switch.antt =====
-- `switch_memory_area` and its loops: the memory areas and their dump trade places.
use switch_os.Base.{
  ℕ, zero, suc, ◌+◌, ◌-◌, ◌*◌, ◌/◌, ◌%◌, ◌^◌, ◌≤◌, ◌<◌, ◌≡◌, ◌⊎◌, ◌∙◌, ap, refl, inl, inr, true,
  arith, ltb, ltb→lt, ◌==◌, Bool-cases,
}
use switch_os.Base.Action.{⊤, Action, ok}
use switch_os.Base.Bytes.{blit, blit-inside, blit-Outside, blit-IsBytes, Outside, Apart}
use switch_os.Core.Header.{CoreHeader}
use switch_os.Core.Disk.{BlkDriver, Works, WholeSectors, virtio_blk_sector_size}
use switch_os.Core.Dump.{
  switch_buf_size, switch_round, switch_loop, switch_read_size, switch_memory_area,
}
use switch_os.Core.Dump.Layout.{DiskMemArea}

-- An area of whole sectors that ends below the top of the address space and does not touch
-- the switch buffer.
pub record Usable (switch_buf : ℕ) (a : DiskMemArea) : Type 0 where
  pub whole : a.size % virtio_blk_sector_size ≡ 0
  pub fits : a.start + a.size + switch_buf_size ≤ 2 ^ 64
  pub sector_fits : a.sector + a.size < 2 ^ 64
  pub clear : (a.start + a.size ≤ switch_buf) ⊎ (switch_buf + switch_buf_size ≤ a.start)

module _ (d : BlkDriver) (switch_buf : ℕ) (ready : d.Machine → Type 0) where
  open d use {Machine, ram, disk}

  -- From `s` to `u` the `n` bytes of memory at `addr` and those of the disk at `pos` trade places.
  -- Of the rest only the switch buffer changes.
  pub record Swaps (addr pos n : ℕ) (s u : Machine) : Type 0 where
    pub is_ready : ready u
    pub loaded : (x : ℕ) → x < n → ram u (addr + x) ≡ disk s (pos + x)
    pub stored : (x : ℕ) → x < n → disk u (pos + x) ≡ ram s (addr + x)
    pub ram_frame :
        (x : ℕ) → Outside addr n x → Outside switch_buf switch_buf_size x → ram u x ≡ ram s x
    pub disk_frame : (x : ℕ) → Outside pos n x → disk u x ≡ disk s x

  Swaps-none : (addr pos : ℕ) (s : Machine) → ready s → Swaps addr pos 0 s s
  Swaps-none addr pos s r = record {
    is_ready = r;
    loaded = λ x h. elim h [ ];
    stored = λ x h. elim h [ ];
    ram_frame = λ x o p. refl;
    disk_frame = λ x o. refl;
  }

  Swaps-cast :
      {addr addr' pos pos' n n' : ℕ} {s u : Machine}
      → addr ≡ addr'
      → pos ≡ pos'
      → n ≡ n'
      → Swaps addr pos n s u
      → Swaps addr' pos' n' s u
  Swaps-cast a b c p = rw (← a, ← b, ← c) p

  Swaps-move :
      (addr pos addr' pos' : ℕ) (s u : Machine) → Swaps addr pos 0 s u → Swaps addr' pos' 0 s u
  Swaps-move addr pos addr' pos' s u p = record {
    is_ready = p.is_ready;
    loaded = λ x h. elim h [ ];
    stored = λ x h. elim h [ ];
    ram_frame = λ x o b. p.ram_frame x (either x addr) b;
    disk_frame = λ x o. p.disk_frame x (either x pos);
  }
    where
      either : (x a : ℕ) → Outside a 0 x
      either x a = elim (Bool-cases (ltb x a)) [
        | inl h ↦ inl (ground arith)
        | inr h ↦ inr (ground arith)
      ]

  lt_or_offset : (x n : ℕ) → (x < n) ⊎ ((y : ℕ) × (x ≡ n + y))
  lt_or_offset x n = elim (Bool-cases (ltb x n)) [
    | inl h ↦ inl (ground arith)
    | inr h ↦ inr (x - n, ground arith)
  ]

  Swaps-join :
      (addr pos n k : ℕ) (s t u : Machine)
      → Apart addr (n + k) switch_buf switch_buf_size
      → Swaps addr pos n s t
      → Swaps (addr + n) (pos + n) k t u
      → Swaps addr pos (n + k) s u
  Swaps-join addr pos n k s t u apart p q = record {
    is_ready = q.is_ready;
    loaded = λ x h. elim (lt_or_offset x n) [
      | inl lt ↦ q.ram_frame (addr + x) (omega arith) (omega arith) ∙ p.loaded x lt
      | inr (y, e) ↦
          ap (ram u) (omega arith)
          ∙ q.loaded y (omega arith)
          ∙ p.disk_frame (pos + n + y) (omega arith)
          ∙ ap (disk s) (omega arith)
    ];
    stored = λ x h. elim (lt_or_offset x n) [
      | inl lt ↦ q.disk_frame (pos + x) (omega arith) ∙ p.stored x lt
      | inr (y, e) ↦
          ap (disk u) (omega arith)
          ∙ q.stored y (omega arith)
          ∙ p.ram_frame (addr + n + y) (omega arith) (omega arith)
          ∙ ap (ram s) (omega arith)
    ];
    ram_frame = λ x o b. q.ram_frame x (omega arith) b ∙ p.ram_frame x (omega arith) b;
    disk_frame = λ x o. q.disk_frame x (omega arith) ∙ p.disk_frame x (omega arith);
  }

  -- The action ends without error in a machine that is so related to where it began.
  abbrev pub Ends : Action Machine ⊤ → Machine → (Machine → Machine → Type 0) → Type 0
  Ends m s R = (u : Machine) × (m s ≡ (ok tt, u)) × R s u

  module _ (g : CoreHeader) (header_at : ℕ) (works : Works d ready) where
    round-Swaps :
        (addr sector n : ℕ) (s : Machine)
        → ready s
        → n % virtio_blk_sector_size ≡ 0
        → n ≤ switch_buf_size
        → sector < 2 ^ 64
        → Apart addr n switch_buf switch_buf_size
        → Ends
            (switch_round d g header_at switch_buf addr sector n)
            s
            (Swaps addr (virtio_blk_sector_size * sector) n)
    unfolding switch_round
    round-Swaps addr sector n s r whole small low apart =
        let fine : WholeSectors sector n = (whole, omega arith, low) in
        let (t₁, e₁, t₂, e₂, at₂) =
          works.read-Serves sector switch_buf n
            (record { is_ready = r; ram_eq = refl; disk_eq = refl }) fine in
        let (t₃, e₃, t₄, e₄, at₄) = works.write-Serves sector addr n at₂ fine in
        let bytes = (works.ready-IsBytes at₄.is_ready).0 in
        let at₅ =
          works.set_ram-At (blit (ram t₄) addr (ram t₄) switch_buf n)
            (blit-IsBytes (ram t₄) (ram t₄) addr switch_buf n bytes bytes) at₄ in
        let checked : (n % virtio_blk_sector_size == 0) ≡ true = ground arith in
        let pos = virtio_blk_sector_size * sector in
        (
          d.set_ram (blit (ram t₄) addr (ram t₄) switch_buf n) t₄,
          rw (checked, e₁, e₂, e₃, e₄),
          record {
            is_ready = at₅.is_ready;
            loaded = λ x h.
                ap (λ m. m (addr + x)) at₅.ram_eq
                ∙ blit-inside (ram t₄) addr (ram t₄) switch_buf n x h
                ∙ ap (λ m. m (switch_buf + x)) at₄.ram_eq
                ∙ blit-inside (ram s) switch_buf (disk s) pos n x h;
            stored = λ x h.
                ap (λ m. m (pos + x)) at₅.disk_eq
                ∙ blit-inside (disk s) pos (blit (ram s) switch_buf (disk s) pos n) addr n x h
                ∙ blit-Outside (ram s) switch_buf (disk s) pos n (addr + x) (omega arith);
            ram_frame = λ x o b.
                ap (λ m. m x) at₅.ram_eq
                ∙ blit-Outside (ram t₄) addr (ram t₄) switch_buf n x o
                ∙ ap (λ m. m x) at₄.ram_eq
                ∙ blit-Outside (ram s) switch_buf (disk s) pos n x (omega arith);
            disk_frame = λ x o.
                ap (λ m. m x) at₅.disk_eq
                ∙ blit-Outside (disk s) pos (blit (ram s) switch_buf (disk s) pos n) addr n x o;
          },
        )

    -- What the sizes and addresses of an area must satisfy while `stop` is its end.
    abbrev Fuelled : ℕ → ℕ → ℕ → Type 0
    Fuelled fuel addr stop =
        (stop + switch_buf_size ≤ addr + fuel * switch_buf_size) × (addr < stop + switch_buf_size)

    -- After one round the rest of the loop has the rest of the area to do.
    Swaps-rest :
        (addr stop sector : ℕ) (s t u : Machine)
        → addr < stop
        → (stop ≤ switch_buf) ⊎ (switch_buf + switch_buf_size ≤ addr)
        → (stop - addr) % virtio_blk_sector_size ≡ 0
        → let n = switch_read_size addr stop in
          Swaps addr (virtio_blk_sector_size * sector) n s t
          → Swaps
              (addr + switch_buf_size)
              (virtio_blk_sector_size * (sector + n / virtio_blk_sector_size))
              (stop - (addr + switch_buf_size))
              t
              u
          → Swaps addr (virtio_blk_sector_size * sector) (stop - addr) s u
    Swaps-rest addr stop sector s t u lt apart whole p q =
        elim (Bool-cases (ltb switch_buf_size (stop - addr))) [
          | inl big ↦
              let size : switch_read_size addr stop ≡ switch_buf_size = ground arith in
              let rest = stop - (addr + switch_buf_size) in
              let at : virtio_blk_sector_size
                    * (sector + switch_read_size addr stop / virtio_blk_sector_size)
                  ≡ virtio_blk_sector_size * sector + switch_buf_size =
                rw size (omega arith) in
              Swaps-cast refl refl (ground arith) (
                Swaps-join addr (virtio_blk_sector_size * sector) switch_buf_size rest s t u
                  (ground arith) (Swaps-cast refl refl size p) (Swaps-cast refl at refl q))
          | inr last ↦
              let size : switch_read_size addr stop ≡ stop - addr = ground arith in
              let none_left : stop - (addr + switch_buf_size) ≡ 0 = ground arith in
              let pos = virtio_blk_sector_size * sector in
              Swaps-cast refl refl (omega arith) (
                Swaps-join addr pos (stop - addr) 0 s t u (omega arith)
                  (Swaps-cast refl refl size p)
                  (Swaps-move _ _ (addr + (stop - addr)) (pos + (stop - addr)) t u
                    (Swaps-cast refl refl none_left q)))
        ]

    loop_continues :
        (fuel addr stop sector k : ℕ) (s t u : Machine)
        → ltb addr stop ≡ true
        → (addr + switch_buf_size) % 2 ^ 64 ≡ addr + switch_buf_size
        → (sector + k) % 2 ^ 64 ≡ sector + k
        → switch_read_size addr stop / virtio_blk_sector_size ≡ k
        → switch_round d g header_at switch_buf addr sector (switch_read_size addr stop) s
          ≡ (ok tt, t)
        → switch_loop d g header_at switch_buf fuel (addr + switch_buf_size) stop (sector + k) t
          ≡ (ok tt, u)
        → switch_loop d g header_at switch_buf (suc fuel) addr stop sector s ≡ (ok tt, u)
    unfolding switch_loop
    loop_continues fuel addr stop sector k s t u more next next_sector size e f =
        rw (more, size, e, next, next_sector) f

    loop-Swaps :
        (fuel addr stop sector : ℕ) (s : Machine)
        → ready s
        → Fuelled fuel addr stop
        → (stop - addr) % virtio_blk_sector_size ≡ 0
        → stop + switch_buf_size ≤ 2 ^ 64
        → sector + (stop - addr) < 2 ^ 64
        → (stop ≤ switch_buf) ⊎ (switch_buf + switch_buf_size ≤ addr)
        → Ends
            (switch_loop d g header_at switch_buf fuel addr stop sector)
            s
            (Swaps addr (virtio_blk_sector_size * sector) (stop - addr))
    unfolding switch_loop
    loop-Swaps zero addr stop sector s r enough whole fits small apart = absurd (omega arith)
    loop-Swaps (suc fuel) addr stop sector s r enough whole fits small apart =
        elim (Bool-cases (ltb addr stop)) [
          | inr done ↦
              let e : stop - addr ≡ 0 = ground arith in
              (s, rw done, rw e (Swaps-none addr (virtio_blk_sector_size * sector) s r))
          | inl more ↦
              let lt = ltb→lt addr stop more in
              let n = switch_read_size addr stop in
              let k = n / virtio_blk_sector_size in
              let next_sector : (sector + k) % 2 ^ 64 ≡ sector + k = ground arith in
              let (t, e, p) =
                round-Swaps addr sector n s r (ground arith) (ground arith) (omega arith)
                  (ground arith) in
              let (u, f, q) =
                loop-Swaps fuel (addr + switch_buf_size) stop (sector + k) t p.is_ready
                  (omega arith, omega arith) (omega arith) fits (ground arith) (omega arith) in
              (
                u,
                loop_continues fuel addr stop sector k s t u more (omega arith) next_sector refl e
                    f,
                Swaps-rest addr stop sector s t u lt apart whole p q,
              )
        ]

    area_runs :
        (start size sector stop : ℕ) (s u : Machine)
        → (start + size) % 2 ^ 64 ≡ stop
        → switch_loop d g header_at switch_buf (size / switch_buf_size + 2) start stop sector s
          ≡ (ok tt, u)
        → switch_memory_area d g header_at switch_buf
            (record { start = start; size = size; sector = sector })
            s
          ≡ (ok tt, u)
    unfolding switch_memory_area
    area_runs start size sector stop s u e run = rw e run

    area_Swaps :
        (start size sector : ℕ) (s : Machine)
        → ready s
        → Usable switch_buf (record { start = start; size = size; sector = sector })
        → Ends
            (switch_memory_area d g header_at switch_buf
              (record { start = start; size = size; sector = sector }))
            s
            (Swaps start (virtio_blk_sector_size * sector) size)
    area_Swaps start size sector s r ok_area =
        let stop : (start + size) % 2 ^ 64 ≡ start + size = omega arith in
        let length : start + size - start ≡ size = omega arith in
        let (u, e, p) =
          loop-Swaps (size / switch_buf_size + 2) start (start + size) sector s r
            (omega arith, omega arith) (rw length ok_area.whole) ok_area.fits (omega arith)
            ok_area.clear in
        (u, area_runs start size sector (start + size) s u stop e, Swaps-cast refl refl length p)

    -- `switch_memory_area` of a usable area succeeds within its fuel. What the memory held at the
    -- area is then on the disk at the area's sectors and the other way round, byte for byte; no
    -- other byte of the disk changes, and no other byte of memory outside the switch buffer.
    pub switch_memory_area-Swaps :
        (a : DiskMemArea) (s : Machine)
        → ready s
        → Usable switch_buf a
        → Ends
            (switch_memory_area d g header_at switch_buf a)
            s
            (Swaps a.start (virtio_blk_sector_size * a.sector) a.size)
    switch_memory_area-Swaps a s r ok_area = area_Swaps a.start a.size a.sector s r ok_area
