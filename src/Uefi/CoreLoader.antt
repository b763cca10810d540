-- ===== src/Uefi/CoreLoader.antt =====
-- uefi/core_loader.c: putting the images of core at their physical addresses.
pub mod Loaded
mod Tests
use switch_os.Base.{ℕ, ◌+◌, ◌-◌, ◌*◌, ◌/◌, ◌%◌, ◌^◌, Bool, true, false, leb}
use switch_os.Base.Action.{
  ⊤, Action, Result, ok, invalid, fault, hang, pure, gets, modify, check, ◌>>=◌, ◌>>◌,
}
use switch_os.Base.Bytes.{Bytes, load32, blit}
use switch_os.Core.Header.{is_core_header_magic_valid}
use switch_os.Uefi.Acpi.Dsdt.{page_size, align_up}

abbrev pub core_phys_addr : ℕ
core_phys_addr = 0x41000000

abbrev pub core_max_phys_mem_size : ℕ
core_max_phys_mem_size = 0x3000000

abbrev pub core_rm_phys_addr : ℕ
core_rm_phys_addr = 0x1000

abbrev pub core_max_rm_phys_mem_size : ℕ
core_max_rm_phys_mem_size = 0x1000

abbrev pub core_pm_phys_addr : ℕ
core_pm_phys_addr = 0x40000000

abbrev pub core_max_pm_phys_mem_size : ℕ
core_max_pm_phys_mem_size = 0x1000000

-- An image that is linked into the application.
pub record Image : Type 0 where
  pub start : Bytes
  pub size : ℕ

pub record Images : Type 0 where
  pub core : Image
  pub core_rm : Image
  pub core_pm : Image

-- `BS->AllocatePages` of reserved memory at an address, and `BS->FreePages`, each with a count of
-- pages. The Boolean is `EFI_SUCCESS`.
pub record ReservedPages : Type 1 where
  pub World : Type 0
  pub reserve : (start pages : ℕ) → World → Bool × World
  pub release : (start pages : ℕ) → World → Bool × World

-- Memory and the firmware.
pub record LoaderState (World : Type 0) : Type 0 where
  pub mem : Bytes
  pub world : World

abbrev pub pages_of : ℕ → ℕ
pages_of size = align_up size / page_size

module _ (b : ReservedPages) where
  open b use {World, reserve, release}

  unfoldable pub reserve_memory : (start size : ℕ) → Action (LoaderState World) ⊤
  reserve_memory start size = do
    success ←
        λ s. (let (r, w) = reserve start (pages_of size) s.world in (ok r, record s { world = w }))
    check success

  unfoldable pub load_memory : (addr : ℕ) → Image → Action (LoaderState World) ⊤
  load_memory addr image = do
    reserve_memory addr image.size
    modify (λ s. record s { mem = blit s.mem addr image.start 0 image.size })

  unfoldable pub load_core : Images → Action (LoaderState World) ℕ
  load_core images = do
    check (leb images.core.size core_max_phys_mem_size)
    check (leb images.core_rm.size core_max_rm_phys_mem_size)
    check (leb images.core_pm.size core_max_pm_phys_mem_size)
    load_memory core_phys_addr images.core
    load_memory core_rm_phys_addr images.core_rm
    load_memory core_pm_phys_addr images.core_pm
    magic ← gets (λ s. load32 s.mem core_phys_addr)
    check (is_core_header_magic_valid magic)
    pure core_phys_addr

  unfoldable pub free_memory : (start size : ℕ) → Action (LoaderState World) ⊤
  free_memory start size = do
    success ←
        λ s. (let (r, w) = release start (pages_of size) s.world in (ok r, record s { world = w }))
    check success

  -- An error of `free_memory` is passed over.
  abbrev pub passed_over : Result ⊤ × LoaderState World → Result ⊤ × LoaderState World
  passed_over (ok a, s) = (ok tt, s)
  passed_over (invalid, s) = (ok tt, s)
  passed_over (fault, s) = (fault, s)
  passed_over (hang, s) = (hang, s)

  unfoldable pub free_core : Images → Action (LoaderState World) ⊤
  free_core images = do
    λ s. passed_over (free_memory core_phys_addr images.core.size s)
    λ s. passed_over (free_memory core_rm_phys_addr images.core_rm.size s)
    λ s. passed_over (free_memory core_pm_phys_addr images.core_pm.size s)
