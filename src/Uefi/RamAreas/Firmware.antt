-- ===== src/Uefi/RamAreas/Firmware.antt =====
-- `fill_ram_areas` (uefi/core_header_utils.c) over boot services that keep their promises.
use switch_os.Base.{
  ℕ, suc, ◌+◌, ◌%◌, ◌^◌, ◌≡◌, refl, sym, ap, ◌∙◌, ◌⊎◌, inl, inr, Bool, true, false, arith,
}
use switch_os.Base.Action.{⊤, Result, ok, invalid}
use switch_os.Core.Header.{CoreHeader}
use switch_os.Uefi.RamAreas.{MemoryMap, BootServices, efi_page_size, desc_loop, fill_ram_areas}
use switch_os.Uefi.RamAreas.Covers.{Covers, Listed}
use switch_os.Uefi.RamAreas.Fill.{WellFormed, FromMap, desc_loop-Filled}

-- What the firmware promises: its maps are well formed, and the pools count the allocations.
pub record Promises (b : BootServices) (pools : b.World → ℕ) : Type 0 where
  pub map-WellFormed : (n : ℕ) (w : b.World) → WellFormed (b.get_memory_map n w).1
  pub ask : (w : b.World) → pools (b.ask_size w).2 ≡ pools w
  pub map : (n : ℕ) (w : b.World) → pools (b.get_memory_map n w).2 ≡ pools w
  pub refused :
      (n : ℕ) (w : b.World)
      → (b.allocate_pool n w).0 ≡ false
      → pools (b.allocate_pool n w).1 ≡ pools w
  pub allocated :
      (n : ℕ) (w : b.World)
      → (b.allocate_pool n w).0 ≡ true
      → pools (b.allocate_pool n w).1 ≡ suc (pools w)
  pub free : (w : b.World) (n : ℕ) → pools w ≡ suc n → pools (b.free_pool w) ≡ n

module _ (b : BootServices) (pools : b.World → ℕ) where
  -- The table is well formed, covers nothing but what the firmware called usable memory, and no
  -- pool is left allocated.
  pub record Outcome (w : b.World) (r : Result ⊤) (h' : CoreHeader) (w' : b.World) : Type 0 where
    pub ends : (r ≡ ok tt) ⊎ (r ≡ invalid)
    pub listed : Listed h'
    pub from_map :
        (x : ℕ) → Covers h' x → (n : ℕ) × (v : b.World) × FromMap (b.get_memory_map n v).1 x
    pub freed : pools w' ≡ pools w

  -- What a run comes to.
  abbrev pub Run : CoreHeader → b.World → Type 0
  Run h w =
      (r : Result ⊤) × (h' : CoreHeader) × (w' : b.World) × (fill_ram_areas b (h, w)
        ≡ (r, (h', w')))
      × Outcome w r h' w'

  module _ (h : CoreHeader) (empty : h.ram_areas_size ≡ 0) where
    empty-Listed : Listed h
    empty-Listed = record {
      few = omega (arith, empty);
      area = λ j p. absurd (omega (arith, empty, p));
      apart = λ i j p q. absurd (omega (arith, empty, q));
    }

    nothing : {P : Type 0} (x : ℕ) → Covers h x → P
    nothing x (j, p, c) = absurd (omega (arith, empty, p))

    unchanged : (w w' : b.World) → pools w' ≡ pools w → Outcome w invalid h w'
    unchanged w w' e = record {
      ends = inr refl;
      listed = empty-Listed;
      from_map = λ x c. nothing x c;
      freed = e;
    }

    module _ (w w₁ w₂ w₃ : b.World) (n : ℕ) where
      refused_runs : b.ask_size w ≡ (false, n, w₁) → fill_ram_areas b (h, w) ≡ (invalid, (h, w₁))
      unfolding fill_ram_areas
      refused_runs e = rw e

      no_pool_runs :
          b.ask_size w ≡ (true, n, w₁)
          → b.allocate_pool ((n + efi_page_size) % 2 ^ 64) w₁ ≡ (false, w₂)
          → fill_ram_areas b (h, w) ≡ (invalid, (h, w₂))
      unfolding fill_ram_areas
      no_pool_runs e f = rw (e, f)

      module _ (e : b.ask_size w ≡ (true, n, w₁))
          (f : b.allocate_pool ((n + efi_page_size) % 2 ^ 64) w₁ ≡ (true, w₂))
          (map : MemoryMap) where
        no_map_runs :
            b.get_memory_map ((n + efi_page_size) % 2 ^ 64) w₂ ≡ (false, map, w₃)
            → fill_ram_areas b (h, w) ≡ (invalid, (h, b.free_pool w₃))
        unfolding fill_ram_areas
        no_map_runs g = rw (e, f, g)

        fills_runs :
            (r : Result ⊤) (h' : CoreHeader)
            → b.get_memory_map ((n + efi_page_size) % 2 ^ 64) w₂ ≡ (true, map, w₃)
            → desc_loop (map.memory_map_size + 1) 0 map h ≡ (r, h')
            → fill_ram_areas b (h, w) ≡ (r, (h', b.free_pool w₃))
        unfolding fill_ram_areas
        fills_runs r h' g k = rw (e, f, g, k)

    module _ (p : Promises b pools) (w : b.World) where
      after_map :
          (n : ℕ) (w₁ w₂ : b.World)
          → b.ask_size w ≡ (true, n, w₁)
          → b.allocate_pool ((n + efi_page_size) % 2 ^ 64) w₁ ≡ (true, w₂)
          → pools w₂ ≡ suc (pools w)
          → (x : Bool × MemoryMap × b.World)
          → b.get_memory_map ((n + efi_page_size) % 2 ^ 64) w₂ ≡ x
          → Run h w
      after_map n w₁ w₂ e f one (false, map, w₃) g =
          let left = ap (λ x. pools x.2) (sym g) ∙ p.map _ w₂ ∙ one in
          (
            invalid,
            h,
            b.free_pool w₃,
            no_map_runs w w₁ w₂ w₃ n e f map g,
            unchanged w _ (p.free w₃ (pools w) left),
          )
      after_map n w₁ w₂ e f one (true, map, w₃) g =
          let left = ap (λ x. pools x.2) (sym g) ∙ p.map _ w₂ ∙ one in
          let same : (b.get_memory_map ((n + efi_page_size) % 2 ^ 64) w₂).1 ≡ map =
            ap (λ x. x.1) g in
          let good : WellFormed map =
            rw same at (p.map-WellFormed ((n + efi_page_size) % 2 ^ 64) w₂) in
          let (r, h', k, filled) =
            desc_loop-Filled map good (map.memory_map_size + 1) 0 0 h (omega arith) (omega arith)
              (omega arith) empty-Listed (λ o x u le c. nothing x c) in
          (
            r,
            h',
            b.free_pool w₃,
            fills_runs w w₁ w₂ w₃ n e f map r h' g k,
            record {
              ends = filled.ends;
              listed = filled.listed;
              from_map = λ x c. elim (filled.within x c) [
                | inl old ↦ nothing x old
                | inr from ↦ ((n + efi_page_size) % 2 ^ 64, w₂, rw (sym same) at from)
              ];
              freed = p.free w₃ (pools w) left;
            },
          )

      after_pool :
          (n : ℕ) (w₁ : b.World)
          → b.ask_size w ≡ (true, n, w₁)
          → pools w₁ ≡ pools w
          → (x : Bool × b.World) → b.allocate_pool ((n + efi_page_size) % 2 ^ 64) w₁ ≡ x
          → Run h w
      after_pool n w₁ e kept (false, w₂) f = (
        invalid,
        h,
        w₂,
        no_pool_runs w w₁ w₂ w₂ n e f,
        unchanged w w₂ (ap (λ x. pools x.1) (sym f) ∙ p.refused _ w₁ (ap (λ x. x.0) f) ∙ kept),
      )
      after_pool n w₁ e kept (true, w₂) f =
          after_map n w₁ w₂ e f
            (ap (λ x. pools x.1) (sym f) ∙ p.allocated _ w₁ (ap (λ x. x.0) f) ∙ ap suc kept) _ refl

      after_ask : (x : Bool × ℕ × b.World) → b.ask_size w ≡ x → Run h w
      after_ask (false, n, w₁) e = (
        invalid,
        h,
        w₁,
        refused_runs w w₁ w₁ w₁ n e,
        unchanged w w₁ (ap (λ x. pools x.2) (sym e) ∙ p.ask w),
      )
      after_ask (true, n, w₁) e = after_pool n w₁ e (ap (λ x. pools x.2) (sym e) ∙ p.ask w) _ refl

  -- From an empty table, over firmware that keeps its promises, `fill_ram_areas` ends with success
  -- or `ERR_INVALID`. Either way the table is well formed, each address it covers belongs to a
  -- usable entry of a map that the firmware gave, and the pool it allocated is free again.
  pub fill_ram_areas-Outcome :
      Promises b pools → (h : CoreHeader) (w : b.World) → h.ram_areas_size ≡ 0 → Run h w
  fill_ram_areas-Outcome p h w empty = after_ask h empty p w _ refl
