-- ===== src/Uefi/RamAreas/Covers.antt =====
-- Which addresses the table of uefi/core_header_utils.c covers, and what `insert_desc` does to them.
use switch_os.Base.{
  ℕ, ◌+◌, ◌*◌, ◌%◌, ◌^◌, ◌≤◌, ◌<◌, ◌≡◌, ap, ◌≢◌, ◌⊎◌, inl, inr, false, ltb, ◌==◌, Bool-cases, arith,
}
use switch_os.Base.Action.{ok}
use switch_os.Base.Bytes.{Apart}
use switch_os.Core.Header.{CoreHeader, MemArea, max_ram_areas}
use switch_os.Uefi.RamAreas.{
  MemoryDescriptor, efi_page_size, with_area, append_area, insert_desc, desc_size, desc_end,
}
use switch_os.Uefi.RamAreas.Insert.{insert_desc-Edited}

abbrev pub In : ℕ → ℕ → ℕ → Type 0
In start size x = (start ≤ x) × (x < start + size)

-- Some area of the table holds address `x`.
abbrev pub Covers : CoreHeader → ℕ → Type 0
Covers h x = (j : ℕ) × (j < h.ram_areas_size) × In (h.ram_areas j).start (h.ram_areas j).size x

-- The table fits its array, its areas are not empty, end below the last address and share nothing.
pub record Listed (h : CoreHeader) : Type 0 where
  pub few : h.ram_areas_size ≤ max_ram_areas
  pub area :
      (j : ℕ)
      → j < h.ram_areas_size
      → (0 < (h.ram_areas j).size) × ((h.ram_areas j).start + (h.ram_areas j).size < 2 ^ 64)
  pub apart :
      (i j : ℕ)
      → i < j
      → j < h.ram_areas_size
      → Apart (h.ram_areas i).start (h.ram_areas i).size (h.ram_areas j).start (h.ram_areas j).size

-- The descriptor has pages, ends below the last address, and shares nothing with the table.
pub record New (desc : MemoryDescriptor) (h : CoreHeader) : Type 0 where
  pub some_page : 0 < desc.number_of_pages
  pub fits : desc.physical_start + desc.number_of_pages * efi_page_size < 2 ^ 64
  pub outside :
      (j : ℕ)
      → j < h.ram_areas_size
      → Apart desc.physical_start
          (desc.number_of_pages * efi_page_size)
          (h.ram_areas j).start
          (h.ram_areas j).size

abbrev pub OfDesc : MemoryDescriptor → ℕ → Type 0
OfDesc desc x = In desc.physical_start (desc.number_of_pages * efi_page_size) x

-- Area `j` is replaced by one that lies in the old one and the descriptor.
pub record Sound (desc : MemoryDescriptor) (h h' : CoreHeader) : Type 0 where
  pub listed : Listed h'
  pub within : (x : ℕ) → Covers h' x → Covers h x ⊎ OfDesc desc x

module _ (desc : MemoryDescriptor) (h : CoreHeader) where
  -- What a replacement of area `j` has to satisfy.
  record Good (j : ℕ) (a : MemArea) : Type 0 where
    some : 0 < a.size
    fits : a.start + a.size < 2 ^ 64
    inside : (x : ℕ) → In a.start a.size x → Covers h x ⊎ OfDesc desc x
    apart :
        (i : ℕ)
        → i < h.ram_areas_size
        → i ≢ j
        → Apart (h.ram_areas i).start (h.ram_areas i).size a.start a.size

  replaced-Listed :
      (j : ℕ) (a : MemArea) → j < h.ram_areas_size → Listed h → Good j a → Listed (with_area h j a)
  replaced-Listed j a p l g = record {
    few = l.few;
    area = λ i q. elim (Bool-cases (i == j)) [
      | inl e ↦ rw e (g.some, g.fits)
      | inr e ↦ rw e (l.area i q)
    ];
    apart = λ i k i<k q. elim (Bool-cases (i == j)) [
      | inl e ↦
          let f : (k == j) ≡ false = ground arith in
          let p = g.apart k q (ground arith) in rw (e, f) (omega (arith, p))
      | inr e ↦ elim (Bool-cases (k == j)) [
        | inl f ↦ rw (e, f) (g.apart i (omega arith) (ground arith))
        | inr f ↦ rw (e, f) (l.apart i k i<k q)
      ]
    ];
  }

  replaced-Sound :
      (j : ℕ) (a : MemArea)
      → j < h.ram_areas_size
      → Listed h
      → Good j a
      → Sound desc h (with_area h j a)
  replaced-Sound j a p l g = record {
    listed = replaced-Listed j a p l g;
    within = λ x (i, q, inside). elim (Bool-cases (i == j)) [
      | inl e ↦ g.inside x (rw e at inside)
      | inr e ↦ inl (i, q, (rw e at inside))
    ];
  }

  appended-Sound :
      (a : MemArea)
      → h.ram_areas_size < max_ram_areas
      → a ≡ record { start = desc.physical_start; size = desc.number_of_pages * efi_page_size }
      → Listed h
      → New desc h
      → Sound desc h (append_area h a)
  appended-Sound a room is l new = rw is (record {
    listed = record {
      few = omega arith;
      area = λ i q. elim (Bool-cases (i == h.ram_areas_size)) [
        | inl e ↦ rw e (omega (arith, new.some_page), new.fits)
        | inr e ↦ rw e (l.area i (ground arith))
      ];
      apart = λ i k i<k q. elim (Bool-cases (k == h.ram_areas_size)) [
        | inl f ↦
            let e : (i == h.ram_areas_size) ≡ false = ground arith in
            let out = new.outside i (ground arith) in rw (e, f) (omega (arith, out))
        | inr f ↦
            let e : (i == h.ram_areas_size) ≡ false = ground arith in
            rw (e, f) (l.apart i k i<k (ground arith))
      ];
    };
    within = λ x (i, q, inside). elim (Bool-cases (i == h.ram_areas_size)) [
      | inl e ↦ inr (rw e at inside)
      | inr e ↦ inl (i, ground arith, (rw e at inside))
    ];
  })

  module _ (l : Listed h) (new : New desc h) where
    size_eq : desc_size desc ≡ desc.number_of_pages * efi_page_size
    size_eq = omega (arith, new.fits)

    end_eq : desc_end desc ≡ desc.physical_start + desc.number_of_pages * efi_page_size
    end_eq = omega (arith, new.fits)

    apart_at : (x : ℕ) → (desc.physical_start ≤ x) ⊎ (x < desc.physical_start)
    apart_at x = omega arith

    side : (x : ℕ) → (desc_end desc ≤ x) ⊎ (x < desc_end desc)
    side x = omega arith

    other-Apart :
        (i j : ℕ)
        → i < h.ram_areas_size
        → j < h.ram_areas_size
        → i ≢ j
        → Apart
            (h.ram_areas i).start
            (h.ram_areas i).size
            (h.ram_areas j).start
            (h.ram_areas j).size
    other-Apart i j p q ne = elim (Bool-cases (ltb i j)) [
      | inl a ↦ l.apart i j (ground arith) q
      | inr a ↦ let s = l.apart j i (ground arith) p in omega (arith, s)
    ]

    front-Good :
        (j : ℕ)
        → j < h.ram_areas_size
        → (h.ram_areas j).start ≡ desc_end desc
        → Good j (record { start = desc.physical_start; size = (h.ram_areas j).size })
    front-Good j p e = record {
      some = (l.area j p).0;
      fits = omega (arith, l.area j p, new.fits, end_eq, new.some_page);
      inside = λ x inside. elim (side x) [
        | inl a ↦
            inl (j, p, (omega (arith, end_eq, e, inside, a), omega (arith, end_eq, e, inside, a)))
        | inr a ↦ inr (inside.0, omega (arith, inside, a, end_eq))
      ];
      apart = λ i q ne.
          omega (arith, other-Apart i j q p ne, new.outside i q, l.area i q, end_eq, new.some_page);
    }

    back-Good :
        (j : ℕ)
        → j < h.ram_areas_size
        → ((h.ram_areas j).start + (h.ram_areas j).size) % 2 ^ 64 ≡ desc.physical_start
        → Good j (record {
          start = (h.ram_areas j).start;
          size = ((h.ram_areas j).size + desc_size desc) % 2 ^ 64;
        })
    back-Good j p e =
        let ends : (h.ram_areas j).start + (h.ram_areas j).size ≡ desc.physical_start =
          omega (arith, l.area j p) in
        let whole : ((h.ram_areas j).size + desc_size desc) % 2 ^ 64
            ≡ (h.ram_areas j).size + desc.number_of_pages * efi_page_size =
          omega (arith, ends, size_eq, new.fits) in
        record {
          some = omega (arith, whole, l.area j p);
          fits = omega (arith, whole, ends, new.fits);
          inside = λ x inside. elim (apart_at x) [
            | inl a ↦ inr (a, omega (arith, inside, whole, ends))
            | inr a ↦ inl (j, p, (inside.0, omega (arith, ends, a)))
          ];
          apart = λ i q ne.
              omega (arith, other-Apart i j q p ne, new.outside i q, l.area i q, whole, ends);
        }

-- A descriptor with pages that shares nothing with a well-formed table with room left is inserted:
-- the table stays well formed, and covers nothing that was neither covered nor the descriptor's.
pub insert_desc-Sound :
    (desc : MemoryDescriptor) (h : CoreHeader)
    → Listed h
    → New desc h
    → h.ram_areas_size < max_ram_areas
    → (h' : CoreHeader) × (insert_desc desc h ≡ (ok tt, h')) × Sound desc h h'
insert_desc-Sound desc h l new room =
    let (h', e, edit) = insert_desc-Edited desc h room in
    (
      h',
      e,
      elim edit [
        | inl (j, p, inl f) ↦
            rw f.front_eq (replaced-Sound desc h j _ p l (front-Good desc h l new j p f.begins))
        | inl (j, p, inr b) ↦
            rw b.back_eq (replaced-Sound desc h j _ p l (back-Good desc h l new j p b.ends))
        | inr a ↦ rw a.appended_eq (
            appended-Sound desc h _ room
              (ap (λ n. record { start = desc.physical_start; size = n }) (size_eq desc h l new)) l
              new)
      ],
    )
