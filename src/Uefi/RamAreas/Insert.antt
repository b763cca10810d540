-- ===== src/Uefi/RamAreas/Insert.antt =====
-- What `insert_desc` (uefi/core_header_utils.c) does to the table: one of three edits.
use switch_os.Base.{
  ℕ, zero, suc, ◌+◌, ◌%◌, ◌^◌, ◌<◌, ◌≡◌, refl, sym, ap, ◌∙◌, ◌≢◌, ◌⊎◌, inl, inr, true, ltb, ◌==◌,
  Bool-cases, arith,
}
use switch_os.Base.Action.{ok}
use switch_os.Core.Header.{CoreHeader, max_ram_areas}
use switch_os.Uefi.RamAreas.{
  MemoryDescriptor, with_area, append_area, insert_loop, insert_desc, desc_size, desc_end,
}

module _ (start size stop : ℕ) where
  -- An area that begins where the descriptor ends takes over the descriptor's start.
  pub record Front (h h' : CoreHeader) (j : ℕ) : Type 0 where
    pub begins : (h.ram_areas j).start ≡ stop
    pub front_eq : h' ≡ with_area h j (record { start = start; size = (h.ram_areas j).size })

  -- An area that ends where the descriptor starts grows by the descriptor.
  pub record Back (h h' : CoreHeader) (j : ℕ) : Type 0 where
    pub begins_elsewhere : (h.ram_areas j).start ≢ stop
    pub ends : ((h.ram_areas j).start + (h.ram_areas j).size) % 2 ^ 64 ≡ start
    pub back_eq :
        h'
        ≡ with_area h j (record {
          start = (h.ram_areas j).start;
          size = ((h.ram_areas j).size + size) % 2 ^ 64;
        })

  -- No area begins where the descriptor ends, and it is entered behind the areas.
  pub record Appended (h h' : CoreHeader) : Type 0 where
    pub none_begins : (j : ℕ) → j < h.ram_areas_size → (h.ram_areas j).start ≢ stop
    pub appended_eq : h' ≡ append_area h (record { start = start; size = size })

  abbrev pub Edited : CoreHeader → CoreHeader → Type 0
  Edited h h' = ((j : ℕ) × (j < h.ram_areas_size) × (Front h h' j ⊎ Back h h' j)) ⊎ Appended h h'

  next :
      (i j : ℕ) (h : CoreHeader)
      → j < suc i
      → ((j : ℕ) → j < i → (h.ram_areas j).start ≢ stop)
      → (h.ram_areas i).start ≢ stop
      → (h.ram_areas j).start ≢ stop
  next i j h p none here e = elim (split i j p) [
    | inl q ↦ none j q e
    | inr q ↦ here (ap (λ i. (h.ram_areas i).start) (sym q) ∙ e)
  ]
    where
      split : (i j : ℕ) → j < suc i → (j < i) ⊎ (j ≡ i)
      split i j p = omega arith

  insert_loop-Edited :
      (k i : ℕ) (h : CoreHeader)
      → i + k ≡ h.ram_areas_size
      → ((j : ℕ) → j < i → (h.ram_areas j).start ≢ stop)
      → Edited h (insert_loop k i start size stop h)
  unfolding insert_loop
  insert_loop-Edited zero i h e none =
      inr (record { none_begins = λ j p. none j (omega arith); appended_eq = refl })
  insert_loop-Edited (suc k) i h e none = elim (Bool-cases ((h.ram_areas i).start == stop)) [
    | inl a ↦ inl (i, omega arith, inl (record { begins = ground arith; front_eq = rw a }))
    | inr a ↦ elim (Bool-cases (((h.ram_areas i).start + (h.ram_areas i).size) % 2 ^ 64 == start)) [
      | inl b ↦ inl (
        i,
        omega arith,
        inr (record { begins_elsewhere = ground arith; ends = ground arith; back_eq = rw (a, b) }),
      )
      | inr b ↦
          rw (a, b)
            (insert_loop-Edited k (suc i) h (omega arith) (λ j p. next i j h p none (ground arith)))
    ]
  ]

-- With room left `insert_desc` succeeds and makes one of the three edits.
pub insert_desc-Edited :
    (desc : MemoryDescriptor) (h : CoreHeader)
    → h.ram_areas_size < max_ram_areas
    → (h' : CoreHeader) × (insert_desc desc h ≡ (ok tt, h'))
      × Edited desc.physical_start (desc_size desc) (desc_end desc) h h'
unfolding insert_desc
insert_desc-Edited desc h room =
    let fits : ltb h.ram_areas_size max_ram_areas ≡ true = ground arith in
    (
      insert_loop h.ram_areas_size 0 desc.physical_start (desc_size desc) (desc_end desc) h,
      rw fits,
      insert_loop-Edited desc.physical_start (desc_size desc) (desc_end desc) h.ram_areas_size 0 h
          (omega arith) (λ j p. omega (arith, p)),
    )
