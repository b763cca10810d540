-- ===== src/Uefi/Acpi/Find.antt =====
-- uefi/acpi/tables.c: finding the ACPI tables from the system table of the firmware.
pub mod Located
pub mod Whole
mod Tests
use switch_os.Base.{
  ℕ, zero, suc, ◌+◌, ◌-◌, ◌*◌, ◌%◌, ◌^◌, Bool, true, false, not, ltb, leb, ◌==◌, ◌&&◌, List, [],
  ◌∷◌, if◌then◌else◌,
}
use switch_os.Base.Action.{
  ⊤, Action, Result, ok, invalid, fault, hang, pure, fail, gets, modify, check, ◌>>=◌, ◌>>◌,
}
use switch_os.Base.Bytes.{Bytes, load32, load64}
use switch_os.Uefi.Acpi.Checksum.{table_length}
use switch_os.Uefi.Acpi.Dsdt.{table_header_size, fadt_dsdt, fadt_x_dsdt, dsdt_aml_size}
use switch_os.Uefi.Acpi.Method.{same_bytes}

-- An entry of `ST->ConfigurationTable`, with its GUID as a number.
pub record ConfigTable : Type 0 where
  pub vendor_guid : ℕ
  pub vendor_table : ℕ

-- The part of `ST` that is read: the pointer, and the entries that it points to.
pub record SystemTable : Type 0 where
  pub configuration_table : ℕ
  pub tables : List ConfigTable

-- Memory and the globals, where 0 is `NULL`.
pub record Globals : Type 0 where
  pub mem : Bytes
  pub g_rsdp : ℕ
  pub g_rxsdt : ℕ
  pub g_fadt : ℕ
  pub g_facs : ℕ
  pub g_dsdt : ℕ

-- Where fields stand in `struct acpi_rsdp` and `struct acpi_fadt`.
abbrev pub rsdp_revision : ℕ
rsdp_revision = 15

abbrev pub rsdp_rsdt_addr : ℕ
rsdp_rsdt_addr = 16

abbrev pub rsdp_xsdt_addr : ℕ
rsdp_xsdt_addr = 24

abbrev pub fadt_firmware_ctrl : ℕ
fadt_firmware_ctrl = 36

abbrev pub fadt_x_firmware_ctrl : ℕ
fadt_x_firmware_ctrl = 132

-- "XSDT" and "FACP"
abbrev pub xsdt_signature : Bytes
xsdt_signature i = if i == 0 then 0x58 else if i == 1 then 0x53 else if i == 2 then 0x44 else 0x54

abbrev pub fadt_signature : Bytes
fadt_signature i = if i == 0 then 0x46 else if i == 1 then 0x41 else if i == 2 then 0x43 else 0x50

-- `compare_guid` is `CompareGuid` of the EFI library, and `acpi_20_table_guid` its
-- `ACPI_20_TABLE_GUID`.
module _ (compare_guid : ℕ → ℕ → Bool) (acpi_20_table_guid : ℕ) where
  unfoldable pub rsdp_loop : List ConfigTable → Action Globals ⊤
  rsdp_loop [] = pure tt
  rsdp_loop (table ∷ tables) =
      let rest = rsdp_loop tables in
      if compare_guid table.vendor_guid acpi_20_table_guid
      then (do
        g_rsdp ← gets (λ s. s.g_rsdp)
        check (g_rsdp == 0)
        modify (λ s. record s { g_rsdp = table.vendor_table })
        rest)
      else rest

  unfoldable pub find_rsdp : SystemTable → Action Globals ⊤
  find_rsdp st = do
    check (not (st.configuration_table == 0))
    rsdp_loop st.tables
    g_rsdp ← gets (λ s. s.g_rsdp)
    check (not (g_rsdp == 0))

-- `rsdp->xsdt_addr` is looked at only when the revision is above 1.
abbrev pub rxsdt_addr : Bytes → ℕ → ℕ
rxsdt_addr m rsdp =
    if ltb 1 (m (rsdp + rsdp_revision)) && not (load64 m (rsdp + rsdp_xsdt_addr) == 0)
    then load64 m (rsdp + rsdp_xsdt_addr)
    else load32 m (rsdp + rsdp_rsdt_addr)

unfoldable pub find_rxsdt : ℕ → Action Globals ⊤
find_rxsdt rsdp = do
  modify (λ s. record s { g_rxsdt = rxsdt_addr s.mem rsdp })
  g_rxsdt ← gets (λ s. s.g_rxsdt)
  check (not (g_rxsdt == 0))

unfoldable pub is_xsdt : Bytes → ℕ → Bool
is_xsdt m rxsdt = same_bytes 4 m rxsdt xsdt_signature 0

-- `memcpy(&entry_addr, a, entry_size)` into a zero.
abbrev pub load_entry : (entry_size : ℕ) → Bytes → ℕ → ℕ
load_entry entry_size m a = if entry_size == 8 then load64 m a else load32 m a

abbrev pub is_fadt : Bytes → ℕ → Bool
is_fadt m entry = same_bytes 4 m entry fadt_signature 0

module _ (rxsdt entry_size entries_bytes : ℕ) where
  unfoldable pub scan_round : ℕ → Action Globals ⊤
  scan_round i = do
    s ← gets (λ s. s)
    let entry = load_entry entry_size s.mem (rxsdt + table_header_size + i)
    check (not (entry == 0))
    if is_fadt s.mem entry
        then check (s.g_fadt == 0) >> modify (λ s. record s { g_fadt = entry })
        else pure tt

  unfoldable pub scan_loop : (fuel : ℕ) → ℕ → Action Globals ⊤
  scan_loop zero i = fail hang
  scan_loop (suc fuel) i =
      let rest = scan_loop fuel ((i + entry_size) % 2 ^ 64) in
      if leb ((i + entry_size) % 2 ^ 64) entries_bytes then scan_round i >> rest else pure tt

abbrev pub entry_size_of : Bytes → ℕ → ℕ
entry_size_of m rxsdt = if is_xsdt m rxsdt then 8 else 4

-- A table that holds its header has fewer entries than bytes behind it.
unfoldable pub scan_rxsdt : ℕ → Action Globals ⊤
scan_rxsdt rxsdt = do
  m ← gets (λ s. s.mem)
  let entries_bytes = dsdt_aml_size (table_length rxsdt m)
  scan_loop rxsdt (entry_size_of m rxsdt) entries_bytes (suc entries_bytes) 0

abbrev pub facs_addr : Bytes → ℕ → ℕ
facs_addr m fadt =
    if not (load64 m (fadt + fadt_x_firmware_ctrl) == 0)
    then load64 m (fadt + fadt_x_firmware_ctrl)
    else load32 m (fadt + fadt_firmware_ctrl)

abbrev pub find_facs : ℕ → Action Globals ⊤
find_facs fadt = modify (λ s. record s { g_facs = facs_addr s.mem fadt })

abbrev pub dsdt_addr : Bytes → ℕ → ℕ
dsdt_addr m fadt =
    if not (load64 m (fadt + fadt_x_dsdt) == 0)
    then load64 m (fadt + fadt_x_dsdt)
    else load32 m (fadt + fadt_dsdt)

abbrev pub find_dsdt : ℕ → Action Globals ⊤
find_dsdt fadt = modify (λ s. record s { g_dsdt = dsdt_addr s.mem fadt })

unfoldable pub find_acpi_tables :
    (compare_guid : ℕ → ℕ → Bool) (acpi_20_table_guid : ℕ) → SystemTable → Action Globals ⊤
find_acpi_tables compare_guid acpi_20_table_guid st = do
  find_rsdp compare_guid acpi_20_table_guid st
  rsdp ← gets (λ s. s.g_rsdp)
  find_rxsdt rsdp
  rxsdt ← gets (λ s. s.g_rxsdt)
  scan_rxsdt rxsdt
  fadt ← gets (λ s. s.g_fadt)
  check (not (fadt == 0))
  find_facs fadt
  find_dsdt fadt
