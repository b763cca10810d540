-- ===== src/Core/Dump/Transfer.antt =====
-- The loops of `disk_store_dump` and `disk_load_dump`, which copy every area one way.
use switch_os.Base.{
  ℕ, zero, suc, ◌+◌, ◌≤◌, ◌<◌, ◌≡◌, ◌⊎◌, ◌∙◌, ap, refl, inl, inr, arith, Bool-cases, ◌==◌,
}
use switch_os.Base.Action.{ok}
use switch_os.Base.Bytes.{blit-inside, blit-Outside, Outside}
use switch_os.Core.Header.{CoreHeader}
use switch_os.Core.Disk.{BlkDriver, Works, WholeSectors}
use switch_os.Core.Dump.{store_loop, load_loop}
use switch_os.Core.Dump.Layout.{DiskMemArea}
use switch_os.Core.Dump.Areas.{position, Separate, Separate-tail}

abbrev pub Sectors : (ℕ → DiskMemArea) → ℕ → ℕ → Type 0
Sectors areas k i = (j : ℕ) → i ≤ j → j < i + k → WholeSectors (areas j).sector (areas j).size

module _ (d : BlkDriver) (ready : d.Machine → Type 0) where
  open d use {Machine, ram, disk}

  -- Each of the areas has been copied to the disk; no other byte there has changed.
  pub record Stored (areas : ℕ → DiskMemArea) (k i : ℕ) (s u : Machine) : Type 0 where
    pub is_ready : ready u
    pub ram_same : ram u ≡ ram s
    pub stored :
        (j x : ℕ)
        → i ≤ j
        → j < i + k
        → x < (areas j).size
        → disk u (position areas j + x) ≡ ram s ((areas j).start + x)
    pub disk_frame :
        (x : ℕ)
        → ((j : ℕ) → i ≤ j → j < i + k → Outside (position areas j) (areas j).size x)
        → disk u x ≡ disk s x

  -- Each of the areas has been read from the disk; no other byte of memory has changed.
  pub record Loaded (areas : ℕ → DiskMemArea) (k i : ℕ) (s u : Machine) : Type 0 where
    pub is_ready : ready u
    pub disk_same : disk u ≡ disk s
    pub loaded :
        (j x : ℕ)
        → i ≤ j
        → j < i + k
        → x < (areas j).size
        → ram u ((areas j).start + x) ≡ disk s (position areas j + x)
    pub ram_frame :
        (x : ℕ)
        → ((j : ℕ) → i ≤ j → j < i + k → Outside (areas j).start (areas j).size x)
        → ram u x ≡ ram s x

  -- Of the indices from `i` on, the first or a later one.
  first_or_later : (i j : ℕ) → i ≤ j → (i ≡ j) ⊎ (suc i ≤ j)
  first_or_later i j p = elim (Bool-cases (i == j)) [
    | inl e ↦ inl (ground arith)
    | inr e ↦ inr (ground arith)
  ]

  module _ (g : CoreHeader) (header_at switch_buf : ℕ) (works : Works d ready) where
    store_runs :
        (areas : ℕ → DiskMemArea) (k i : ℕ) (s t u v : Machine)
        → d.write (areas i).sector (areas i).start (areas i).size s ≡ (ok tt, t)
        → d.consume t ≡ (ok tt, u)
        → store_loop d g header_at switch_buf k (suc i) areas u ≡ (ok tt, v)
        → store_loop d g header_at switch_buf (suc k) i areas s ≡ (ok tt, v)
    unfolding store_loop
    store_runs areas k i s t u v a b c = rw (a, b) c

    pub store_loop-Stored :
        (areas : ℕ → DiskMemArea) (k i : ℕ) (s : Machine)
        → ready s
        → Sectors areas k i
        → Separate areas k i
        → (u : Machine) × (store_loop d g header_at switch_buf k i areas s ≡ (ok tt, u))
          × Stored areas k i s u
    unfolding store_loop
    store_loop-Stored areas zero i s r whole sep = (
      s,
      refl,
      record {
        is_ready = r;
        ram_same = refl;
        stored = λ j x a b h. absurd (omega arith);
        disk_frame = λ x o. refl;
      },
    )
    store_loop-Stored areas (suc k) i s r whole sep =
        let (t, a, u, b, at) =
          works.write-Serves (areas i).sector (areas i).start (areas i).size
            (record { is_ready = r; ram_eq = refl; disk_eq = refl })
            (whole i (omega arith) (omega arith)) in
        let (v, c, q) =
          store_loop-Stored areas k (suc i) u at.is_ready
            (λ j e f. whole j (omega arith) (omega arith)) (Separate-tail areas k i sep) in
        (
          v,
          store_runs areas k i s t u v a b c,
          record {
            is_ready = q.is_ready;
            ram_same = q.ram_same ∙ at.ram_eq;
            stored = λ j x e f h. elim (first_or_later i j e) [
              | inl n ↦ rw (← n) (
                  q.disk_frame (position areas i + x) (λ l y z.
                    let apart = sep.disk_apart i l (omega arith) y (omega arith) in
                    let small : x < (areas i).size = rw n h in omega (arith, apart))
                  ∙ ap (λ m. m (position areas i + x)) at.disk_eq
                  ∙ blit-inside (disk s) (position areas i) (ram s) (areas i).start (areas i).size x
                      (rw n h))
              | inr later ↦
                  q.stored j x later (omega arith) h ∙ ap (λ m. m ((areas j).start + x)) at.ram_eq
            ];
            disk_frame = λ x o.
                q.disk_frame x (λ j e f. o j (omega arith) (omega arith))
                ∙ ap (λ m. m x) at.disk_eq
                ∙ blit-Outside (disk s) (position areas i) (ram s) (areas i).start (areas i).size x
                    (o i (omega arith) (omega arith));
          },
        )

    load_runs :
        (areas : ℕ → DiskMemArea) (k i : ℕ) (s t u v : Machine)
        → d.read (areas i).sector (areas i).start (areas i).size s ≡ (ok tt, t)
        → d.consume t ≡ (ok tt, u)
        → load_loop d g header_at switch_buf k (suc i) areas u ≡ (ok tt, v)
        → load_loop d g header_at switch_buf (suc k) i areas s ≡ (ok tt, v)
    unfolding load_loop
    load_runs areas k i s t u v a b c = rw (a, b) c

    pub load_loop-Loaded :
        (areas : ℕ → DiskMemArea) (k i : ℕ) (s : Machine)
        → ready s
        → Sectors areas k i
        → Separate areas k i
        → (u : Machine) × (load_loop d g header_at switch_buf k i areas s ≡ (ok tt, u))
          × Loaded areas k i s u
    unfolding load_loop
    load_loop-Loaded areas zero i s r whole sep = (
      s,
      refl,
      record {
        is_ready = r;
        disk_same = refl;
        loaded = λ j x a b h. absurd (omega arith);
        ram_frame = λ x o. refl;
      },
    )
    load_loop-Loaded areas (suc k) i s r whole sep =
        let (t, a, u, b, at) =
          works.read-Serves (areas i).sector (areas i).start (areas i).size
            (record { is_ready = r; ram_eq = refl; disk_eq = refl })
            (whole i (omega arith) (omega arith)) in
        let (v, c, q) =
          load_loop-Loaded areas k (suc i) u at.is_ready
            (λ j e f. whole j (omega arith) (omega arith)) (Separate-tail areas k i sep) in
        (
          v,
          load_runs areas k i s t u v a b c,
          record {
            is_ready = q.is_ready;
            disk_same = q.disk_same ∙ at.disk_eq;
            loaded = λ j x e f h. elim (first_or_later i j e) [
              | inl n ↦ rw (← n) (
                  q.ram_frame ((areas i).start + x) (λ l y z.
                    let apart = sep.ram_apart i l (omega arith) y (omega arith) in
                    let small : x < (areas i).size = rw n h in omega (arith, apart))
                  ∙ ap (λ m. m ((areas i).start + x)) at.ram_eq
                  ∙ blit-inside (ram s) (areas i).start (disk s) (position areas i) (areas i).size x
                      (rw n h))
              | inr later ↦
                  q.loaded j x later (omega arith) h ∙ ap (λ m. m (position areas j + x)) at.disk_eq
            ];
            ram_frame = λ x o.
                q.ram_frame x (λ j e f. o j (omega arith) (omega arith))
                ∙ ap (λ m. m x) at.ram_eq
                ∙ blit-Outside (ram s) (areas i).start (disk s) (position areas i) (areas i).size x
                    (o i (omega arith) (omega arith));
          },
        )
