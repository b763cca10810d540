-- ===== src/Core/Dump/Areas.antt =====
-- `switch_areas`, the loop of `disk_switch_dump`: every area trades places with its dump.
use switch_os.Base.{
  ℕ, zero, suc, ◌+◌, ◌*◌, ◌≤◌, ◌<◌, ◌≡◌, ◌⊎◌, ◌∙◌, refl, inl, inr, arith, ◌==◌, Bool-cases,
}
use switch_os.Base.Action.{ok}
use switch_os.Base.Bytes.{Outside, Apart}
use switch_os.Core.Header.{CoreHeader}
use switch_os.Core.Disk.{BlkDriver, Works, virtio_blk_sector_size}
use switch_os.Core.Dump.{switch_buf_size, switch_memory_area, switch_areas}
use switch_os.Core.Dump.Layout.{DiskMemArea}
use switch_os.Core.Dump.Switch.{Swaps, Ends, Usable, switch_memory_area-Swaps}

-- The areas with an index from `i` on, `k` of them.
module _ (areas : ℕ → DiskMemArea) where
  abbrev pub position : ℕ → ℕ
  position j = virtio_blk_sector_size * (areas j).sector

  -- No two of the areas share a byte of memory or of the disk.
  pub record Separate (k i : ℕ) : Type 0 where
    pub ram_apart :
        (j l : ℕ)
        → i ≤ j
        → j < l
        → l < i + k
        → Apart (areas j).start (areas j).size (areas l).start (areas l).size
    pub disk_apart :
        (j l : ℕ)
        → i ≤ j
        → j < l
        → l < i + k
        → Apart (position j) (areas j).size (position l) (areas l).size

  -- Every area of the list meets the conditions of `switch_memory_area`.
  abbrev pub AllUsable : (switch_buf : ℕ) → ℕ → ℕ → Type 0
  AllUsable switch_buf k i = (j : ℕ) → i ≤ j → j < i + k → Usable switch_buf (areas j)

  pub Separate-tail : (k i : ℕ) → Separate (suc k) i → Separate k (suc i)
  Separate-tail k i h = record {
    ram_apart = λ j l p q r. h.ram_apart j l (omega arith) q (omega arith);
    disk_apart = λ j l p q r. h.disk_apart j l (omega arith) q (omega arith);
  }

  module _ (d : BlkDriver) (switch_buf : ℕ) (ready : d.Machine → Type 0) where
    open d use {Machine, ram, disk}

    pub record SwapsAll (k i : ℕ) (s u : Machine) : Type 0 where
      pub is_ready : ready u
      pub loaded :
          (j x : ℕ)
          → i ≤ j
          → j < i + k
          → x < (areas j).size
          → ram u ((areas j).start + x) ≡ disk s (position j + x)
      pub stored :
          (j x : ℕ)
          → i ≤ j
          → j < i + k
          → x < (areas j).size
          → disk u (position j + x) ≡ ram s ((areas j).start + x)
      pub ram_frame :
          (x : ℕ)
          → ((j : ℕ) → i ≤ j → j < i + k → Outside (areas j).start (areas j).size x)
          → Outside switch_buf switch_buf_size x
          → ram u x ≡ ram s x
      pub disk_frame :
          (x : ℕ)
          → ((j : ℕ) → i ≤ j → j < i + k → Outside (position j) (areas j).size x)
          → disk u x ≡ disk s x

    SwapsAll-none : (i : ℕ) (s : Machine) → ready s → SwapsAll 0 i s s
    SwapsAll-none i s r = record {
      is_ready = r;
      loaded = λ j x p q h. absurd (omega arith);
      stored = λ j x p q h. absurd (omega arith);
      ram_frame = λ x o b. refl;
      disk_frame = λ x o. refl;
    }

    -- Of the indices from `i` on, the first or a later one.
    first_or_later : (i j : ℕ) → i ≤ j → (i ≡ j) ⊎ (suc i ≤ j)
    first_or_later i j p = elim (Bool-cases (i == j)) [
      | inl e ↦ inl (ground arith)
      | inr e ↦ inr (ground arith)
    ]

    -- Each area lies clear of the switch buffer.
    abbrev Clear : ℕ → ℕ → Type 0
    Clear k i =
        (j : ℕ)
        → i ≤ j
        → j < i + k
        → ((areas j).start + (areas j).size ≤ switch_buf)
          ⊎ (switch_buf + switch_buf_size ≤ (areas j).start)

    SwapsAll-cons :
        (k i : ℕ) (s t u : Machine)
        → Separate (suc k) i
        → Clear (suc k) i
        → Swaps d switch_buf ready (areas i).start (position i) (areas i).size s t
        → SwapsAll k (suc i) t u
        → SwapsAll (suc k) i s u
    SwapsAll-cons k i s t u sep clear p q = record {
      is_ready = q.is_ready;
      loaded = λ j x a b h. elim (first_or_later i j a) [
        | inl e ↦ rw (← e) (
            q.ram_frame ((areas i).start + x) (λ l c f. out_of_ram l x c f (rw e h))
              (out_of_buf x (rw e h))
            ∙ p.loaded x (rw e h))
        | inr later ↦
            q.loaded j x later (omega arith) h
            ∙ p.disk_frame (position j + x) (disk_before j x later b h)
      ];
      stored = λ j x a b h. elim (first_or_later i j a) [
        | inl e ↦ rw (← e) (
            q.disk_frame (position i + x) (λ l c f. out_of_disk l x c f (rw e h))
            ∙ p.stored x (rw e h))
        | inr later ↦
            q.stored j x later (omega arith) h
            ∙ p.ram_frame ((areas j).start + x) (ram_before j x later b h) (out_of_buf_at j x a b h)
      ];
      ram_frame = λ x o b.
          q.ram_frame x (λ l c f. o l (omega arith) (omega arith)) b
          ∙ p.ram_frame x (o i (omega arith) (omega arith)) b;
      disk_frame = λ x o.
          q.disk_frame x (λ l c f. o l (omega arith) (omega arith))
          ∙ p.disk_frame x (o i (omega arith) (omega arith));
    }
      where
        out_of_buf_at :
            (j x : ℕ)
            → i ≤ j
            → j < i + suc k
            → x < (areas j).size
            → Outside switch_buf switch_buf_size ((areas j).start + x)
        out_of_buf_at j x a b h = let c = clear j a b in omega (arith, c)

        out_of_buf :
            (x : ℕ) → x < (areas i).size → Outside switch_buf switch_buf_size ((areas i).start + x)
        out_of_buf x h = out_of_buf_at i x (omega arith) (omega arith) h

        out_of_ram :
            (l x : ℕ)
            → suc i ≤ l
            → l < suc i + k
            → x < (areas i).size
            → Outside (areas l).start (areas l).size ((areas i).start + x)
        out_of_ram l x c f h =
            let s = sep.ram_apart i l (omega arith) c (omega arith) in omega (arith, s)

        out_of_disk :
            (l x : ℕ)
            → suc i ≤ l
            → l < suc i + k
            → x < (areas i).size
            → Outside (position l) (areas l).size (position i + x)
        out_of_disk l x c f h =
            let s = sep.disk_apart i l (omega arith) c (omega arith) in omega (arith, s)

        disk_before :
            (j x : ℕ)
            → suc i ≤ j
            → j < i + suc k
            → x < (areas j).size
            → Outside (position i) (areas i).size (position j + x)
        disk_before j x c f h = let s = sep.disk_apart i j (omega arith) c f in omega (arith, s)

        ram_before :
            (j x : ℕ)
            → suc i ≤ j
            → j < i + suc k
            → x < (areas j).size
            → Outside (areas i).start (areas i).size ((areas j).start + x)
        ram_before j x c f h = let s = sep.ram_apart i j (omega arith) c f in omega (arith, s)

    module _ (g : CoreHeader) (header_at : ℕ) (works : Works d ready) where
      switch_runs :
          (k i : ℕ) (s t u : Machine)
          → switch_memory_area d g header_at switch_buf (areas i) s ≡ (ok tt, t)
          → switch_areas d g header_at switch_buf k (suc i) areas t ≡ (ok tt, u)
          → switch_areas d g header_at switch_buf (suc k) i areas s ≡ (ok tt, u)
      unfolding switch_areas
      switch_runs k i s t u e f = rw e f

      -- The loop succeeds: each of the areas, which are usable and share no byte, trades places
      -- with its dump, and nothing else changes but the switch buffer.
      pub switch_areas-SwapsAll :
          (k i : ℕ) (s : Machine)
          → ready s
          → AllUsable switch_buf k i
          → Separate k i
          → Ends d switch_buf ready
              (switch_areas d g header_at switch_buf k i areas)
              s
              (SwapsAll k i)
      unfolding switch_areas
      switch_areas-SwapsAll zero i s r good sep = (s, refl, SwapsAll-none i s r)
      switch_areas-SwapsAll (suc k) i s r good sep =
          let (t, e, p) =
            switch_memory_area-Swaps d switch_buf ready g header_at works (areas i) s r
              (good i (omega arith) (omega arith)) in
          let (u, f, q) =
            switch_areas-SwapsAll k (suc i) t p.is_ready
              (λ j a b. good j (omega arith) (omega arith)) (Separate-tail k i sep) in
          (
            u,
            switch_runs k i s t u e f,
            SwapsAll-cons k i s t u sep (λ j a b. (good j a b).clear) p q,
          )
