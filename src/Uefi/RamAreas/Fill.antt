-- ===== src/Uefi/RamAreas/Fill.antt =====
-- The loop of `fill_ram_areas` (uefi/core_header_utils.c) over the firmware's memory map.
use switch_os.Base.{
  ◌%◌, ℕ, zero, suc, ◌+◌, ◌*◌, ◌^◌, ◌≤◌, ◌<◌, ◌≡◌, refl, ap, ◌∙◌, ◌⊎◌, inl, inr, true, false, ltb,
  leb, Bool-cases, arith,
}
use switch_os.Base.Action.{⊤, Result, ok, invalid}
use switch_os.Base.Bytes.{Apart}
use switch_os.Core.Header.{CoreHeader, max_ram_areas}
use switch_os.Uefi.RamAreas.{
  MemoryDescriptor, MemoryMap, efi_page_size, is_memory_desc_usable, insert_desc, desc_loop,
}
use switch_os.Uefi.RamAreas.Covers.{In, Covers, Listed, New, OfDesc, insert_desc-Sound}

-- Entry `k` of the map.
abbrev pub entry_desc : MemoryMap → ℕ → MemoryDescriptor
entry_desc map k = map.desc_at (k * map.entry_size)

-- The map has a whole entry `o` of a usable type.
pub record UsableAt (map : MemoryMap) (o : ℕ) : Type 0 where
  pub inside : o * map.entry_size + map.entry_size ≤ map.memory_map_size
  pub usable : is_memory_desc_usable (entry_desc map o) ≡ true

-- What UEFI promises of a memory map: entries have a size, describe pages below the last address,
-- and two entries share no address.
pub record WellFormed (map : MemoryMap) : Type 0 where
  pub entry : 0 < map.entry_size
  pub bounded : map.memory_map_size + map.entry_size < 2 ^ 64
  pub pages : (o : ℕ) → UsableAt map o → 0 < (entry_desc map o).number_of_pages
  pub fits :
      (o : ℕ)
      → UsableAt map o
      → (entry_desc map o).physical_start + (entry_desc map o).number_of_pages * efi_page_size
        < 2 ^ 64
  pub distinct :
      (o o' x : ℕ)
      → UsableAt map o
      → UsableAt map o'
      → o < o'
      → OfDesc (entry_desc map o) x
      → ¬ OfDesc (entry_desc map o') x

-- Address `x` belongs to a usable entry.
abbrev pub FromMap : MemoryMap → ℕ → Type 0
FromMap map x = (o : ℕ) × UsableAt map o × OfDesc (entry_desc map o) x

-- Entries from `i` on share no address with the table.
abbrev Ahead : MemoryMap → ℕ → CoreHeader → Type 0
Ahead map i h = (o x : ℕ) → UsableAt map o → i ≤ o → Covers h x → ¬ OfDesc (entry_desc map o) x

pointwise-Apart : (a n b m : ℕ) → 0 < n → 0 < m → ((x : ℕ) → In a n x → ¬ In b m x) → Apart a n b m
pointwise-Apart a n b m p q apart = elim (cases a n b m) [
  | inl r ↦ r
  | inr (inl (r, s)) ↦ absurd (apart a (omega arith, omega arith) (omega arith, omega arith))
  | inr (inr (r, s)) ↦ absurd (apart b (omega arith, omega arith) (omega arith, omega arith))
]
  where
    cases : (a n b m : ℕ) → Apart a n b m ⊎ (((b ≤ a) × (a < b + m)) ⊎ ((a ≤ b) × (b < a + n)))
    cases a n b m = omega arith

insert_desc_full :
    (desc : MemoryDescriptor) (h : CoreHeader)
    → max_ram_areas ≤ h.ram_areas_size
    → insert_desc desc h ≡ (invalid, h)
unfolding insert_desc
insert_desc_full desc h full = ground arith

-- The loop ended, with the table well formed and covering nothing but what it covered before and
-- what usable entries describe.
pub record Filled (map : MemoryMap) (h : CoreHeader) (r : Result ⊤) (h' : CoreHeader) : Type 0 where
  pub ends : (r ≡ ok tt) ⊎ (r ≡ invalid)
  pub listed : Listed h'
  pub within : (x : ℕ) → Covers h' x → Covers h x ⊎ FromMap map x

module _ (map : MemoryMap) (w : WellFormed map) where
  entry-New :
      (o i : ℕ) (h : CoreHeader)
      → UsableAt map o
      → i ≤ o
      → Listed h
      → Ahead map i h
      → New (entry_desc map o) h
  entry-New o i h u le l ahead = record {
    some_page = w.pages o u;
    fits = w.fits o u;
    outside = λ j p.
        pointwise-Apart _ _ _ _ (omega (arith, w.pages o u)) (l.area j p).0
          (λ x mine its. ahead o x u le (j, p, its) mine);
  }

  -- The loop's outcome from offset `i`.
  abbrev Run : ℕ → ℕ → CoreHeader → Type 0
  Run fuel i h =
      (r : Result ⊤) × (h' : CoreHeader) × (desc_loop fuel i map h ≡ (r, h')) × Filled map h r h'

  stops :
      (fuel i : ℕ) (h : CoreHeader)
      → (i + map.entry_size) % 2 ^ 64 ≡ i + map.entry_size
      → leb (i + map.entry_size) map.memory_map_size ≡ false
      → Listed h
      → Run (suc fuel) i h
  unfolding desc_loop
  stops fuel i h z e l =
      (ok tt, h, rw (z, e), record { ends = inl refl; listed = l; within = λ x c. inl c })

  skips :
      (fuel i : ℕ) (h : CoreHeader)
      → (i + map.entry_size) % 2 ^ 64 ≡ i + map.entry_size
      → leb (i + map.entry_size) map.memory_map_size ≡ true
      → is_memory_desc_usable (map.desc_at i) ≡ false
      → Run fuel (i + map.entry_size) h
      → Run (suc fuel) i h
  unfolding desc_loop
  skips fuel i h z e u run = rw (z, e, u) run

  refuses :
      (fuel i : ℕ) (h : CoreHeader)
      → (i + map.entry_size) % 2 ^ 64 ≡ i + map.entry_size
      → leb (i + map.entry_size) map.memory_map_size ≡ true
      → is_memory_desc_usable (map.desc_at i) ≡ true
      → insert_desc (map.desc_at i) h ≡ (invalid, h)
      → Listed h
      → Run (suc fuel) i h
  unfolding desc_loop
  refuses fuel i h z e u f l =
      (invalid, h, rw (z, e, u, f), record { ends = inr refl; listed = l; within = λ x c. inl c })

  inserts_runs :
      (fuel i : ℕ) (h h' h'' : CoreHeader) (r : Result ⊤)
      → (i + map.entry_size) % 2 ^ 64 ≡ i + map.entry_size
      → leb (i + map.entry_size) map.memory_map_size ≡ true
      → is_memory_desc_usable (map.desc_at i) ≡ true
      → insert_desc (map.desc_at i) h ≡ (ok tt, h')
      → desc_loop fuel (i + map.entry_size) map h' ≡ (r, h'')
      → desc_loop (suc fuel) i map h ≡ (r, h'')
  unfolding desc_loop
  inserts_runs fuel i h h' h'' r z e u f g = rw (z, e, u, f, g)

  next_offset : (k : ℕ) → k * map.entry_size + map.entry_size ≡ suc k * map.entry_size
  next_offset k = omega arith

  -- The entries behind `k` share nothing with the table after entry `k` has gone into it.
  inserted-Ahead :
      (k : ℕ) (h h' : CoreHeader)
      → UsableAt map k
      → Ahead map k h
      → ((x : ℕ) → Covers h' x → Covers h x ⊎ OfDesc (entry_desc map k) x)
      → Ahead map (suc k) h'
  inserted-Ahead k h h' u ahead within o x v le c = elim (within x c) [
    | inl old ↦ ahead o x v (omega arith) old
    | inr new ↦ w.distinct k o x u v (omega arith) new
  ]

  widen :
      (k : ℕ) (h h' : CoreHeader) (r : Result ⊤) (h'' : CoreHeader)
      → UsableAt map k
      → ((x : ℕ) → Covers h' x → Covers h x ⊎ OfDesc (entry_desc map k) x)
      → Filled map h' r h''
      → Filled map h r h''
  widen k h h' r h'' u within f = record {
    ends = f.ends;
    listed = f.listed;
    within = λ x c. elim (f.within x c) [
      | inr from ↦ inr from
      | inl old ↦ elim (within x old) [ inl c ↦ inl c | inr new ↦ inr (k, u, new) ]
    ];
  }

  pub desc_loop-Filled :
      (fuel k i : ℕ) (h : CoreHeader)
      → i ≡ k * map.entry_size
      → i ≤ map.memory_map_size
      → map.memory_map_size < i + fuel
      → Listed h
      → Ahead map k h
      → Run fuel i h
  desc_loop-Filled zero k i h at some enough l ahead = absurd (omega (arith, some, enough))
  desc_loop-Filled (suc fuel) k i h at some enough l ahead =
      let next_at : i + map.entry_size ≡ suc k * map.entry_size =
        ap (λ i. i + map.entry_size) at ∙ next_offset k in
      let z : (i + map.entry_size) % 2 ^ 64 ≡ i + map.entry_size = omega (arith, some, w.bounded) in
      elim (Bool-cases (leb (i + map.entry_size) map.memory_map_size)) [
        | inr e ↦ stops fuel i h z e l
        | inl e ↦ elim (Bool-cases (is_memory_desc_usable (map.desc_at i))) [
          | inr v ↦ skips fuel i h z e v (
              desc_loop-Filled fuel (suc k) (i + map.entry_size) h next_at (ground arith)
                (omega (arith, w.entry)) l (λ o x u le. ahead o x u (omega arith)))
          | inl v ↦
              let u : UsableAt map k = record {
                inside = ground (arith, at);
                usable = rw at at v;
              } in
              elim (Bool-cases (ltb h.ram_areas_size max_ram_areas)) [
                | inr f ↦
                    refuses fuel i h z e v (insert_desc_full (map.desc_at i) h (ground arith)) l
                | inl f ↦
                    let (h', g, sound) =
                      insert_desc-Sound (entry_desc map k) h l
                        (entry-New k k h u (omega arith) l ahead) (ground arith) in
                    let (r, h'', rest, filled) =
                      desc_loop-Filled fuel (suc k) (i + map.entry_size) h' next_at (ground arith)
                        (omega (arith, w.entry)) sound.listed
                        (inserted-Ahead k h h' u ahead sound.within) in
                    (
                      r,
                      h'',
                      inserts_runs fuel i h h' h'' r z e v (rw at g) rest,
                      widen k h h' r h'' u sound.within filled,
                    )
              ]
        ]
      ]
