-- ===== src/Uefi/Acpi/HookPts/Tests.antt =====
-- A DSDT and a hook on which the theorem about `create_or_hook_pts` is applied.
use switch_os.Base.{
  Bool-cases, inr, inl, ℕ, ◌+◌, ◌*◌, ◌<◌, ◌≡◌, ◌≢◌, refl, true, false, ◌==◌, ◌||◌, [], ◌∷◌,
  if◌then◌else◌, arith,
}
use switch_os.Base.Action.{ok}
use switch_os.Base.Bytes.{Bytes}
use switch_os.Uefi.Acpi.PkgLength.{PkgLength}
use switch_os.Uefi.Acpi.PkgLength.Encoding.{lone, parsed, parse_pkg_length-Encodes}
use switch_os.Uefi.Acpi.Method.{same_bytes}
use switch_os.Uefi.Acpi.Dsdt.{PageServices}
use switch_os.Uefi.Acpi.Method.Finding.{Absent}
use switch_os.Uefi.Acpi.Method.Rename.{aml_size_of, dsdt_aml}
use switch_os.Uefi.Acpi.HookPts.{Generated, Hooks, offset_loop, create_or_hook_pts, pts_name}
use switch_os.Uefi.Acpi.HookPts.Parts.{Room}
use switch_os.Uefi.Acpi.HookPts.Created.{
  Relocatable, Created, first_part, standalone_part, create_or_hook_pts-Created,
}

-- The pages of an allocation follow those of the last one; the world counts the allocations.
abbrev pages : PageServices
pages = record {
  World = ℕ;
  allocate_pages = λ highest n w. (true, 0x8000 + w * 0x1000, w + 1);
  free_pages = λ addr n w. (true, w + 10);
}

-- A DSDT of 44 bytes at 0x1000, whose AML begins with a method of another name, and an FADT of 244
-- bytes at 0x2000.
abbrev memory : Bytes
memory x =
    if x == 0x1004
    then 44
    else if x == 0x1024
    then 0x14
    else if x == 0x2004
    then 244
    else if x == 0x1005 || x == 0x1006 || x == 0x1007
    then 0
    else if x == 0x2005 || x == 0x2006 || x == 0x2007
    then 0
    else 7

abbrev generated : Generated
generated = record {
  offset_table =
      record { pathname = "_PTS"; offset = 41 }
      ∷ record { pathname = "_PTS.FACS"; offset = 49 }
      ∷ [];
  header_size = 36;
  pts = λ i. 0x44;
  pts_size = 5;
  pts_facs_size = 20;
}

abbrev hooks : Hooks ℕ
hooks = record {
  tables = record {
    mem = memory;
    g_fadt = 0x2000;
    g_dsdt = 0x1000;
    g_is_dsdt_patched = false;
    world = 0;
  };
  g_facs = 0x12345678;
  pts_facs = λ i. 0x55;
}

abbrev garbage : PkgLength
garbage = record { size = 9; encoded_size = 9; aml = λ i. 9 }

generated-Relocatable : Relocatable pages generated 8
unfolding offset_loop
generated-Relocatable = record { offset = refl; inside = omega arith; word = omega arith }

hooks-Room :
    Room pages
      (first_part pages generated)
      (standalone_part pages generated 8 hooks)
      hooks.tables
      0x8000
      0x9000
      1
      2
      12
hooks-Room = record {
  placed = record {
    header = omega arith;
    below = omega arith;
    p_some = λ e. omega (arith, e);
    fadt_some = λ e. omega (arith, e);
    fadt_whole = omega arith;
    apart = omega arith;
  };
  unpatched = refl;
  asked = refl;
  below = omega arith;
  some_new = λ e. omega (arith, e);
  apart = omega arith;
  beside = omega arith;
  asked_again = refl;
  freed = refl;
}

other_bytes :
    (x : ℕ)
    → x < aml_size_of pages hooks.tables
    → (x == 0) ≡ false
    → dsdt_aml pages hooks.tables x ≢ 0x14
other_bytes x p ne e = ground (arith, p, ne, e)

abbrev aml : Bytes
aml = dsdt_aml pages hooks.tables

other_name : same_bytes 4 aml 2 pts_name.bytes 0 ≡ false
unfolding same_bytes
other_name = refl

no_pts : Absent aml (aml_size_of pages hooks.tables) pts_name.bytes
no_pts i p inside e = elim (Bool-cases (i == 0)) [
  | inr ne ↦ absurd (other_bytes i inside ne e)
  | inl here ↦
      let i≡0 : i ≡ 0 = ground arith in
      rw i≡0 (
        inr (
          parsed (λ j. aml (0 + 1 + j)) 7 0 p,
          parse_pkg_length-Encodes (λ j. aml (0 + 1 + j)) 7 7 0 p (lone (omega arith) refl)
              (omega arith),
          omega arith,
          other_name,
        ))
]

create_or_hook_pts-Created_example :
    (t : Hooks ℕ) × (create_or_hook_pts pages generated garbage garbage hooks ≡ (ok tt, t))
    × Created pages generated 8 hooks 0x8000 0x9000 1 2 12 t
create_or_hook_pts-Created_example =
    create_or_hook_pts-Created pages generated 8 hooks 0x8000 0x9000 1 2 12 garbage garbage
      generated-Relocatable no_pts hooks-Room
