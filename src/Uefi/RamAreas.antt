-- ===== src/Uefi/RamAreas.antt =====
-- uefi/core_header_utils.c: the table of RAM areas, from the firmware's memory map.
pub mod Insert
pub mod Covers
pub mod Kept
pub mod Fill
pub mod Firmware
mod Tests
use switch_os.Base.{
  ℕ, zero, suc, ◌+◌, ◌*◌, ◌/◌, ◌%◌, ◌^◌, Bool, true, false, not, ltb, leb, ◌==◌, if◌then◌else◌,
  List, [], ◌∷◌,
}
use switch_os.Base.Action.{
  ⊤, Action, Result, ok, hang, pure, fail, gets, modify, check, ◌>>=◌, ◌>>◌,
}
use switch_os.Core.Header.{CoreHeader, MemArea, max_ram_areas}

abbrev pub efi_page_size : ℕ
efi_page_size = 4096

-- `EFI_MEMORY_DESCRIPTOR`: `Type`, `PhysicalStart`, `NumberOfPages`.
pub record MemoryDescriptor : Type 0 where
  pub kind : ℕ
  pub physical_start : ℕ
  pub number_of_pages : ℕ

-- `g_usable_memory_types`: loader code and data, boot services code and data, conventional, ACPI
-- reclaim, persistent, runtime services code and data.
abbrev pub usable_memory_types : List ℕ
usable_memory_types = 1 ∷ 2 ∷ 3 ∷ 4 ∷ 7 ∷ 9 ∷ 14 ∷ 5 ∷ 6 ∷ []

unfoldable pub type_loop : List ℕ → ℕ → Bool
type_loop [] kind = false
type_loop (t ∷ ts) kind = if kind == t then true else type_loop ts kind

unfoldable pub is_memory_desc_usable : MemoryDescriptor → Bool
is_memory_desc_usable desc = type_loop usable_memory_types desc.kind

abbrev pub set_mem_area : (ℕ → MemArea) → ℕ → MemArea → ℕ → MemArea
set_mem_area areas i a j = if j == i then a else areas j

-- `g_core_header->ram_areas[i] = a`.
abbrev pub with_area : CoreHeader → ℕ → MemArea → CoreHeader
with_area h i a = record h { ram_areas = set_mem_area h.ram_areas i a }

abbrev pub append_area : CoreHeader → MemArea → CoreHeader
append_area h a = record h {
  ram_areas = set_mem_area h.ram_areas h.ram_areas_size a;
  ram_areas_size = (h.ram_areas_size + 1) % 2 ^ 32;
}

-- The loop of `insert_desc` over the areas from `i` on, and the entry made when it finds none. The
-- numbers are `desc->PhysicalStart`, `desc_size` and `desc_end`.
unfoldable pub insert_loop : ℕ → ℕ → (start desc_size desc_end : ℕ) → CoreHeader → CoreHeader
insert_loop zero i start desc_size desc_end h =
    append_area h (record { start = start; size = desc_size })
insert_loop (suc k) i start desc_size desc_end h =
    let area = h.ram_areas i in
    let rest = insert_loop k (suc i) start desc_size desc_end h in
    if area.start == desc_end
    then with_area h i (record area { start = start })
    else if (area.start + area.size) % 2 ^ 64 == start
    then with_area h i (record area { size = (area.size + desc_size) % 2 ^ 64 })
    else rest

abbrev pub desc_size : MemoryDescriptor → ℕ
desc_size desc = desc.number_of_pages * efi_page_size % 2 ^ 64

abbrev pub desc_end : MemoryDescriptor → ℕ
desc_end desc = (desc.physical_start + desc_size desc) % 2 ^ 64

unfoldable pub insert_desc : MemoryDescriptor → Action CoreHeader ⊤
insert_desc desc = do
  n ← gets (λ h. h.ram_areas_size)
  check (ltb n max_ram_areas)
  modify (insert_loop n 0 desc.physical_start (desc_size desc) (desc_end desc))

-- What the firmware's `GetMemoryMap` returns for a buffer that is large enough.
pub record MemoryMap : Type 0 where
  pub memory_map_size : ℕ
  pub entry_size : ℕ
  pub desc_at : ℕ → MemoryDescriptor

-- `BS->GetMemoryMap`, `AllocatePool` and `FreePool`. The first Boolean says that the call with an
-- empty buffer answers `EFI_BUFFER_TOO_SMALL` and is followed by the size it asks for.
pub record BootServices : Type 1 where
  pub World : Type 0
  pub ask_size : World → Bool × ℕ × World
  pub allocate_pool : ℕ → World → Bool × World
  pub get_memory_map : ℕ → World → Bool × MemoryMap × World
  pub free_pool : World → World

-- The loop over the map from offset `i` on. A map with entries of no size is gone over forever.
unfoldable pub desc_loop : ℕ → ℕ → MemoryMap → Action CoreHeader ⊤
desc_loop zero i map = fail hang
desc_loop (suc fuel) i map =
    let rest = desc_loop fuel ((i + map.entry_size) % 2 ^ 64) map in
    if leb ((i + map.entry_size) % 2 ^ 64) map.memory_map_size
    then if is_memory_desc_usable (map.desc_at i) then insert_desc (map.desc_at i) >> rest else rest
    else pure tt

module _ (b : BootServices) where
  open b use {World, ask_size, allocate_pool, get_memory_map, free_pool}

  abbrev pub in_world : {A : Type 0} → (World → A × World) → Action (CoreHeader × World) A
  in_world f (h, w) = let (a, w') = f w in (ok a, (h, w'))

  abbrev pub in_header : {A : Type 0} → Action CoreHeader A → Action (CoreHeader × World) A
  in_header m (h, w) = let (r, h') = m h in (r, (h', w))

  -- `cleanup` when `memory_map` is not `NULL`.
  abbrev pub freeing : {A : Type 0} → Action (CoreHeader × World) A → Action (CoreHeader × World) A
  freeing m s = let (r, (h, w)) = m s in (r, (h, free_pool w))

  unfoldable pub fill_ram_areas : Action (CoreHeader × World) ⊤
  fill_ram_areas = do
    (too_small, n) ← in_world (λ w. let (r, n, w') = ask_size w in ((r, n), w'))
    check too_small
    allocated ← in_world (allocate_pool ((n + efi_page_size) % 2 ^ 64))
    check allocated
    freeing (do
      (success, map) ←
          in_world
            (λ w. let (r, m, w') = get_memory_map ((n + efi_page_size) % 2 ^ 64) w in ((r, m), w'))
      check success
      in_header (desc_loop (map.memory_map_size + 1) 0 map))
