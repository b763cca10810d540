-- ===== src/Uefi/Acpi/Find/Tests.antt =====
-- Firmware tables on which the theorems about `find_acpi_tables` are applied.
use switch_os.Base.{◌-◌, ◌≡◌, refl, leb, ltb, ◌==◌, ◌&&◌, [], ◌∷◌, if◌then◌else◌, arith}
use switch_os.Base.Action.{ok, invalid}
use switch_os.Base.Bytes.{Bytes}
use switch_os.Uefi.Acpi.Method.{same_bytes}
use switch_os.Uefi.Acpi.Find.{
  SystemTable, Globals, xsdt_signature, fadt_signature, is_xsdt, find_acpi_tables,
}
use switch_os.Uefi.Acpi.Find.Whole.{
  find_acpi_tables_twice, Located, fadts_of, Scannable, Searchable, find_acpi_tables-Located,
}

-- The RSDP is at 0x100, the XSDT at 0x200 with entries 0x300 and 0x400, and the FADT at 0x400.
abbrev firmware : Bytes
firmware x =
    if x == 0x10f
    then 2
    else if x == 0x119
    then 2
    else if leb 0x200 x && ltb x 0x204
    then xsdt_signature (x - 0x200)
    else if x == 0x204
    then 52
    else if x == 0x225
    then 3
    else if x == 0x22d
    then 4
    else if leb 0x400 x && ltb x 0x404
    then fadt_signature (x - 0x400)
    else if x == 0x425
    then 6
    else if x == 0x429
    then 5
    else 0

abbrev system_table : SystemTable
system_table = record {
  configuration_table = 0x50;
  tables =
      record { vendor_guid = 1; vendor_table = 5 }
      ∷ record { vendor_guid = 7; vendor_table = 0x100 }
      ∷ [];
}

abbrev unset : Bytes → Globals
unset m = record { mem = m; g_rsdp = 0; g_rxsdt = 0; g_fadt = 0; g_facs = 0; g_dsdt = 0 }

firmware-Scannable : Scannable firmware 0x200
unfolding is_xsdt same_bytes
firmware-Scannable = record {
  some_rxsdt = λ e. omega (arith, e);
  header = omega arith;
  word = omega arith;
  each = ((λ e. omega (arith, e)), ((λ e. omega (arith, e)), tt));
}

firmware-Searchable : Searchable ◌==◌ 7 system_table 0x100 (unset firmware)
firmware-Searchable = record {
  configured = λ e. omega (arith, e);
  one_rsdp = refl;
  some_rsdp = λ e. omega (arith, e);
  scannable = firmware-Scannable;
  unset = (refl, refl);
}

one_fadt : fadts_of firmware 0x200 ≡ 0x400 ∷ []
unfolding is_xsdt same_bytes
one_fadt = refl

find_acpi_tables-Located_example :
    (t : Globals) × (find_acpi_tables ◌==◌ 7 system_table (unset firmware) ≡ (ok tt, t))
    × Located ◌==◌ 7 system_table 0x100 0x400 (unset firmware) t
find_acpi_tables-Located_example =
    find_acpi_tables-Located ◌==◌ 7 system_table 0x100 0x400 (unset firmware) firmware-Searchable
      one_fadt (λ e. omega (arith, e))

-- A second FADT at 0x300.
abbrev doubled : Bytes
doubled x = if leb 0x300 x && ltb x 0x304 then fadt_signature (x - 0x300) else firmware x

doubled-Searchable : Searchable ◌==◌ 7 system_table 0x100 (unset doubled)
unfolding is_xsdt same_bytes
doubled-Searchable = record {
  configured = λ e. omega (arith, e);
  one_rsdp = refl;
  some_rsdp = λ e. omega (arith, e);
  scannable = record {
    some_rxsdt = λ e. omega (arith, e);
    header = omega arith;
    word = omega arith;
    each = ((λ e. omega (arith, e)), ((λ e. omega (arith, e)), tt));
  };
  unset = (refl, refl);
}

two_fadts : fadts_of doubled 0x200 ≡ 0x300 ∷ 0x400 ∷ []
unfolding is_xsdt same_bytes
two_fadts = refl

find_acpi_tables_twice_example :
    (t : Globals) × (find_acpi_tables ◌==◌ 7 system_table (unset doubled) ≡ (invalid, t))
    × (t.g_fadt ≡ 0x300)
    × (t.g_dsdt ≡ 0)
    × (t.mem ≡ doubled)
find_acpi_tables_twice_example =
    find_acpi_tables_twice ◌==◌ 7 system_table 0x100 0x300 0x400 [] (unset doubled)
      doubled-Searchable two_fadts (λ e. omega (arith, e))
