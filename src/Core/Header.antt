-- ===== src/Core/Header.antt =====
-- The core header of shared/include/core/header.h, which the EFI application fills and core reads.
use switch_os.Pci.{PciDevAddr}
use switch_os.Base.{ℕ, zero, suc, Bool, true, false, ◌&&◌, not, ltb, ◌==◌, if◌then◌else◌}

pub record MemArea : Type 0 where
  pub start : ℕ
  pub size : ℕ

-- `enum core_action`, as the number that is stored.
abbrev pub core_action_noop : ℕ
core_action_noop = 0

abbrev pub core_action_store : ℕ
core_action_store = 1

abbrev pub core_action_switch : ℕ
core_action_switch = 2

abbrev pub core_action_max : ℕ
core_action_max = 3

abbrev pub max_ram_areas : ℕ
max_ram_areas = 64

abbrev pub core_header_magic : ℕ
core_header_magic = 0x12345678

pub record CoreHeader : Type 0 where
  pub magic : ℕ
  pub action : ℕ
  pub facs : ℕ
  pub rsdp : ℕ
  pub addr : PciDevAddr
  pub bars : ℕ → ℕ
  pub ram_areas_size : ℕ
  pub ram_areas : ℕ → MemArea

unfoldable pub is_core_header_magic_valid : ℕ → Bool
is_core_header_magic_valid magic = magic == core_header_magic

unfoldable pub is_core_header_action_valid : ℕ → Bool
is_core_header_action_valid action = ltb action core_action_max

unfoldable pub is_core_header_facs_valid : ℕ → Bool
is_core_header_facs_valid facs = not (facs == 0)

unfoldable pub is_core_header_rsdp_valid : ℕ → Bool
is_core_header_rsdp_valid rsdp = not (rsdp == 0)

-- The loop over the areas from `i` on, with the rounds left.
unfoldable pub ram_areas_loop : ℕ → ℕ → (ℕ → MemArea) → Bool
ram_areas_loop zero i areas = true
ram_areas_loop (suc k) i areas =
    if (areas i).size == 0 then false else ram_areas_loop k (suc i) areas

unfoldable pub is_core_header_ram_areas_valid : (ℕ → MemArea) → ℕ → Bool
unfolding ram_areas_loop
is_core_header_ram_areas_valid areas n =
    if ltb max_ram_areas n then false else ram_areas_loop n 0 areas

unfoldable pub is_core_header_valid : CoreHeader → Bool
unfolding is_core_header_magic_valid is_core_header_action_valid is_core_header_facs_valid
    is_core_header_rsdp_valid is_core_header_ram_areas_valid
is_core_header_valid h =
    is_core_header_magic_valid h.magic
    && is_core_header_action_valid h.action
    && is_core_header_facs_valid h.facs
    && is_core_header_rsdp_valid h.rsdp
    && is_core_header_ram_areas_valid h.ram_areas h.ram_areas_size
