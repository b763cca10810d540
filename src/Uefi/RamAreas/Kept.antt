-- ===== src/Uefi/RamAreas/Kept.antt =====
-- What the table of uefi/core_header_utils.c still covers after `insert_desc`.
use switch_os.Base.{
  ℕ, ◌+◌, ◌-◌, ◌*◌, ◌%◌, ◌^◌, ◌<◌, ◌≡◌, ap, ◌≢◌, ◌⊎◌, inl, inr, true, false, ◌==◌, Bool-cases,
  arith,
}
use switch_os.Base.Action.{ok}
use switch_os.Core.Header.{CoreHeader, MemArea, max_ram_areas}
use switch_os.Uefi.RamAreas.{
  MemoryDescriptor, efi_page_size, with_area, append_area, insert_desc, desc_size, desc_end,
}
use switch_os.Uefi.RamAreas.Insert.{insert_desc-Edited}
use switch_os.Uefi.RamAreas.Covers.{In, Covers, Listed, New, OfDesc}

module _ (desc : MemoryDescriptor) (h : CoreHeader) (l : Listed h) (new : New desc h) where
  size_eq : desc_size desc ≡ desc.number_of_pages * efi_page_size
  size_eq = omega (arith, new.fits)

  end_eq : desc_end desc ≡ desc.physical_start + desc.number_of_pages * efi_page_size
  end_eq = omega (arith, new.fits)

  -- Nothing that was covered is lost, and the descriptor's addresses are covered.
  abbrev Keeps : CoreHeader → Type 0
  Keeps h' = (x : ℕ) → Covers h x ⊎ OfDesc desc x → Covers h' x

  back-Keeps :
      (j : ℕ)
      → j < h.ram_areas_size
      → ((h.ram_areas j).start + (h.ram_areas j).size) % 2 ^ 64 ≡ desc.physical_start
      → Keeps (
          with_area h j (record {
            start = (h.ram_areas j).start;
            size = ((h.ram_areas j).size + desc_size desc) % 2 ^ 64;
          }))
  back-Keeps j p e x c =
      let ends : (h.ram_areas j).start + (h.ram_areas j).size ≡ desc.physical_start =
        omega (arith, l.area j p) in
      let whole : ((h.ram_areas j).size + desc_size desc) % 2 ^ 64
          ≡ (h.ram_areas j).size + desc.number_of_pages * efi_page_size =
        omega (arith, ends, size_eq, new.fits) in
      let here : (j == j) ≡ true = ground arith in
      elim c [
        | inr q ↦ (j, p, rw here (omega (arith, ends, q), omega (arith, ends, whole, q)))
        | inl (i, a, q) ↦ elim (Bool-cases (i == j)) [
          | inl f ↦
              let i≡j : i ≡ j = ground arith in
              let q' : In (h.ram_areas j).start (h.ram_areas j).size x = rw i≡j at q in
              (i, a, rw f (omega (arith, q'), omega (arith, q', whole)))
          | inr f ↦ (i, a, rw f q)
        ]
      ]

  appended-Keeps :
      (a : MemArea)
      → h.ram_areas_size < max_ram_areas
      → a ≡ record { start = desc.physical_start; size = desc.number_of_pages * efi_page_size }
      → Keeps (append_area h a)
  appended-Keeps a room is x c = rw is (elim c [
    | inr q ↦
        let here : (h.ram_areas_size == h.ram_areas_size) ≡ true = ground arith in
        (h.ram_areas_size, omega arith, rw here q)
    | inl (i, p, q) ↦
        let f : (i == h.ram_areas_size) ≡ false = ground arith in (i, omega arith, rw f q)
  ])

-- When no area begins where the descriptor ends, inserting the descriptor into a well-formed table
-- with room left keeps every covered address and adds all of the descriptor's.
pub insert_desc-Keeps :
    (desc : MemoryDescriptor) (h : CoreHeader)
    → Listed h
    → New desc h
    → h.ram_areas_size < max_ram_areas
    → ((j : ℕ) → j < h.ram_areas_size → (h.ram_areas j).start ≢ desc_end desc)
    → (h' : CoreHeader) × (insert_desc desc h ≡ (ok tt, h'))
      × ((x : ℕ) → Covers h x ⊎ OfDesc desc x → Covers h' x)
insert_desc-Keeps desc h l new room none =
    let (h', e, edit) = insert_desc-Edited desc h room in
    (
      h',
      e,
      elim edit [
        | inl (j, p, inl f) ↦ absurd (none j p f.begins)
        | inl (j, p, inr b) ↦ rw b.back_eq (back-Keeps desc h l new j p b.ends)
        | inr a ↦ rw a.appended_eq (
            appended-Keeps desc h l new _ room
              (ap (λ n. record { start = desc.physical_start; size = n }) (size_eq desc h l new)))
      ],
    )

-- The last address of the area that an inserted descriptor is merged in front of.
abbrev pub last_address : CoreHeader → ℕ → ℕ
last_address h j = (h.ram_areas j).start + (h.ram_areas j).size - 1

module _ (desc : MemoryDescriptor) (h : CoreHeader) (l : Listed h) (new : New desc h) where
  only_one :
      (i j : ℕ)
      → i < h.ram_areas_size
      → j < h.ram_areas_size
      → (h.ram_areas i).start ≡ desc_end desc
      → (h.ram_areas j).start ≡ desc_end desc
      → i ≡ j
  only_one i j p q e f = elim (tri i j) [
    | inl a ↦ let s = l.apart i j a q in absurd (omega (arith, s, e, f, l.area i p, l.area j q))
    | inr (inl a) ↦
        let s = l.apart j i a p in absurd (omega (arith, s, e, f, l.area i p, l.area j q))
    | inr (inr a) ↦ a
  ]
    where
      tri : (i j : ℕ) → (i < j) ⊎ ((j < i) ⊎ (i ≡ j))
      tri i j = omega arith

  front_lost :
      (j : ℕ)
      → j < h.ram_areas_size
      → (h.ram_areas j).start ≡ desc_end desc
      → ¬ Covers
          (with_area h j (record { start = desc.physical_start; size = (h.ram_areas j).size }))
          (last_address h j)
  front_lost j p e (i, q, inside) = elim (Bool-cases (i == j)) [
    | inl f ↦
        let here : In desc.physical_start (h.ram_areas j).size (last_address h j) =
          rw f at inside in
        omega (arith, here, e, end_eq desc h l new, new.some_page, l.area j p)
    | inr f ↦
        let there : In (h.ram_areas i).start (h.ram_areas i).size (last_address h j) =
          rw f at inside in
        elim (lt_or i j f) [
          | inl a ↦ let s = l.apart i j a p in omega (arith, there, s, l.area j p, l.area i q)
          | inr a ↦ let s = l.apart j i a q in omega (arith, there, s, l.area j p, l.area i q)
        ]
  ]
    where
      lt_or : (i j : ℕ) → (i == j) ≡ false → (i < j) ⊎ (j < i)
      lt_or i j f = ground arith

-- When an area begins where the descriptor ends and none ends where it starts, inserting the
-- descriptor into a well-formed table with room left loses the last address of that area, which
-- was covered before.
pub insert_desc_front_loses :
    (desc : MemoryDescriptor) (h : CoreHeader) (j : ℕ)
    → Listed h
    → New desc h
    → h.ram_areas_size < max_ram_areas
    → j < h.ram_areas_size
    → (h.ram_areas j).start ≡ desc_end desc
    → ((i : ℕ)
        → i < h.ram_areas_size
        → (h.ram_areas i).start + (h.ram_areas i).size ≢ desc.physical_start)
    → (h' : CoreHeader) × (insert_desc desc h ≡ (ok tt, h'))
      × Covers h (last_address h j)
      × (¬ Covers h' (last_address h j))
insert_desc_front_loses desc h j l new room p e none =
    let (h', r, edit) = insert_desc-Edited desc h room in
    (
      h',
      r,
      (j, p, (omega (arith, l.area j p), omega (arith, l.area j p))),
      elim edit [
        | inl (i, q, inl f) ↦
            let i≡j = only_one desc h l new i j q p f.begins e in
            let f_eq = f.front_eq in rw (f_eq, i≡j) (front_lost desc h l new j p e)
        | inl (i, q, inr b) ↦ absurd (none i q (omega (arith, l.area i q, b.ends)))
        | inr a ↦ absurd (a.none_begins j p e)
      ],
    )
