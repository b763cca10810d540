-- ===== src/Uefi/RamAreas/Tests.antt =====
-- Memory maps and firmware on which the theorems about the table of RAM areas are applied.
use switch_os.Base.{
  ℕ, suc, ◌+◌, ◌-◌, ◌*◌, ◌^◌, ◌≤◌, ◌<◌, ◌≡◌, refl, ◌⊎◌, inl, inr, true, ◌==◌, if◌then◌else◌, arith,
}
use switch_os.Base.Action.{ok}
use switch_os.Core.Header.{CoreHeader, MemArea}
use switch_os.Uefi.RamAreas.{
  MemoryDescriptor, MemoryMap, BootServices, is_memory_desc_usable, insert_desc, fill_ram_areas,
  desc_loop, insert_loop, type_loop,
}
use switch_os.Uefi.RamAreas.Covers.{In, Covers, Listed, OfDesc, Sound, insert_desc-Sound}
use switch_os.Uefi.RamAreas.Kept.{insert_desc-Keeps, insert_desc_front_loses, last_address}
use switch_os.Uefi.RamAreas.Fill.{entry_desc, WellFormed}
use switch_os.Uefi.RamAreas.Firmware.{Run, fill_ram_areas-Outcome}

-- A table with the `n` areas given.
abbrev table : ℕ → (ℕ → MemArea) → CoreHeader
table n areas = record {
  magic = 0x12345678;
  action = 0;
  facs = 0x7f000;
  rsdp = 0xe0000;
  addr = record { bus = 0; device = 3; function = 0 };
  bars = λ i. 0;
  ram_areas_size = n;
  ram_areas = areas;
}

-- Conventional memory at 1 MiB, four pages.
abbrev low : MemoryDescriptor
low = record { kind = 7; physical_start = 0x100000; number_of_pages = 4 }

-- One area right behind `low`, of two pages.
abbrev behind : CoreHeader
behind = table 1 (λ i. record { start = 0x104000; size = 0x2000 })

-- One area right before `low`.
abbrev before : CoreHeader
before = table 1 (λ i. record { start = 0xff000; size = 0x1000 })

one-Listed : (a : MemArea) → 0 < a.size → a.start + a.size < 2 ^ 64 → Listed (table 1 (λ i. a))
one-Listed a p q = record {
  few = omega arith;
  area = λ j r. (p, q);
  apart = λ i j r s. omega (arith, r, s);
}

insert_desc-Sound_example :
    (h' : CoreHeader) × (insert_desc low behind ≡ (ok tt, h')) × Sound low behind h'
insert_desc-Sound_example =
    insert_desc-Sound low behind (one-Listed _ (omega arith) (omega arith))
      (record { some_page = omega arith; fits = omega arith; outside = λ j p. omega arith })
      (omega arith)

insert_desc-Keeps_example :
    (h' : CoreHeader) × (insert_desc low before ≡ (ok tt, h'))
    × ((x : ℕ) → Covers before x ⊎ OfDesc low x → Covers h' x)
insert_desc-Keeps_example =
    insert_desc-Keeps low before (one-Listed _ (omega arith) (omega arith))
      (record { some_page = omega arith; fits = omega arith; outside = λ j p. omega arith })
      (omega arith) (λ j p. omega arith)

insert_desc_front_loses_example :
    (h' : CoreHeader) × (insert_desc low behind ≡ (ok tt, h'))
    × Covers behind (last_address behind 0)
    × (¬ Covers h' (last_address behind 0))
insert_desc_front_loses_example =
    insert_desc_front_loses low behind 0 (one-Listed _ (omega arith) (omega arith))
      (record { some_page = omega arith; fits = omega arith; outside = λ j p. omega arith })
      (omega arith) (omega arith) refl (λ j p. omega arith)

-- Three entries of 48 bytes: conventional memory, memory-mapped I/O, loader data.
abbrev entry : ℕ → MemoryDescriptor
entry o =
    if o == 0
    then low
    else if o == 48
    then record { kind = 11; physical_start = 0xfe000000; number_of_pages = 1 }
    else record { kind = 2; physical_start = 0x200000; number_of_pages = 2 }

abbrev map : MemoryMap
map = record { memory_map_size = 144; entry_size = 48; desc_at = entry }

-- The world is the number of pools.
abbrev firmware : BootServices
firmware = record {
  World = ℕ;
  ask_size = λ w. (true, 144, w);
  allocate_pool = λ n w. (true, suc w);
  get_memory_map = λ n w. (true, map, w);
  free_pool = λ w. w - 1;
}

three : (k : ℕ) → k * 48 + 48 ≤ 144 → (k ≡ 0) ⊎ ((k ≡ 1) ⊎ (k ≡ 2))
three k p = omega arith

at_0 : (k x : ℕ) → k ≡ 0 → OfDesc (entry_desc map k) x → In 0x100000 0x4000 x
at_0 k x e a = rw e at a

at_1 : (k x : ℕ) → k ≡ 1 → OfDesc (entry_desc map k) x → In 0xfe000000 0x1000 x
at_1 k x e a = rw e at a

at_2 : (k x : ℕ) → k ≡ 2 → OfDesc (entry_desc map k) x → In 0x200000 0x2000 x
at_2 k x e a = rw e at a

map-WellFormed : WellFormed map
map-WellFormed = record {
  entry = omega arith;
  bounded = omega arith;
  pages = λ k u. elim (three k u.inside) [
    | inl e ↦ rw e (omega arith)
    | inr (inl e) ↦ rw e (omega arith)
    | inr (inr e) ↦ rw e (omega arith)
  ];
  fits = λ k u. elim (three k u.inside) [
    | inl e ↦ rw e (omega arith)
    | inr (inl e) ↦ rw e (omega arith)
    | inr (inr e) ↦ rw e (omega arith)
  ];
  distinct = λ k l x u v k<l a b. elim (three k u.inside) [
    | inl e ↦ elim (three l v.inside) [
      | inl f ↦ omega (arith, k<l, e, f)
      | inr (inl f) ↦ omega (arith, at_0 k x e a, at_1 l x f b)
      | inr (inr f) ↦ omega (arith, at_0 k x e a, at_2 l x f b)
    ]
    | inr (inl e) ↦ elim (three l v.inside) [
      | inl f ↦ omega (arith, k<l, e, f)
      | inr (inl f) ↦ omega (arith, k<l, e, f)
      | inr (inr f) ↦ omega (arith, at_1 k x e a, at_2 l x f b)
    ]
    | inr (inr e) ↦ omega (arith, v.inside, k<l, e)
  ];
}

fill_ram_areas-Outcome_example :
    Run firmware (λ w. w) (table 0 (λ i. record { start = 7; size = 7 })) 5
fill_ram_areas-Outcome_example =
    fill_ram_areas-Outcome firmware (λ w. w)
      (record {
        map-WellFormed = λ n w. map-WellFormed;
        ask = λ w. refl;
        map = λ n w. refl;
        refused = λ n w e. cc;
        allocated = λ n w e. refl;
        free = λ w n e. omega (arith, e);
      })
      (table 0 (λ i. record { start = 7; size = 7 })) 5 refl

-- The usable entries are listed in order and the pool is free again.
filled_table :
    let (r, (h, w)) = fill_ram_areas firmware (table 0 (λ i. record { start = 7; size = 7 }), 5) in
    (r ≡ ok tt)
    × (h.ram_areas_size ≡ 2)
    × ((h.ram_areas 1).start ≡ 0x200000)
    × ((h.ram_areas 1).size ≡ 0x2000)
    × (w ≡ 5)
unfolding fill_ram_areas desc_loop insert_desc insert_loop is_memory_desc_usable type_loop
filled_table = (refl, refl, refl, refl, refl)
