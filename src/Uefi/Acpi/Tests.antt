-- ===== src/Uefi/Acpi/Tests.antt =====
-- Tables and package lengths on which the theorems about the ACPI patches are applied.
use switch_os.Uefi.Acpi.Dsdt.{PageServices, Tables, append_dsdt}
use switch_os.Uefi.Acpi.Dsdt.Grown.{Placed, Grown, append_dsdt-Grown, append_dsdt_again-Grown}
use switch_os.Base.{
  ℕ, ◌||◌, ◌+◌, ◌-◌, ◌≡◌, ◌≢◌, ◌<◌, refl, Bool, true, false, ◌==◌, if◌then◌else◌, arith,
}
use switch_os.Base.Action.{ok, fault}
use switch_os.Base.Bytes.{Bytes}
use switch_os.Uefi.Acpi.PkgLength.{
  PkgLength, build_pkg_length, parse_pkg_length, build_loop, parse_loop, aml_byte,
}
use switch_os.Uefi.Acpi.PkgLength.Encoding.{lone, one, two, parsed, parse_pkg_length-Encodes}
use switch_os.Uefi.Acpi.Method.{Name, same_bytes, find_method, rename_method}
use switch_os.Uefi.Acpi.Method.Finding.{Declared}
use switch_os.Uefi.Acpi.Method.Rename.{Renamed, dsdt_aml, find_method_stale, rename_method-Renamed}
use switch_os.Uefi.Acpi.PkgLength.Building.{kept, parse-build_pkg_length}
use switch_os.Uefi.Acpi.PkgLength.Errors.{parse_pkg_length_overrun}

abbrev garbage : PkgLength
garbage = record { size = 9; encoded_size = 9; aml = λ i. 9 }

-- 0x123 + 0x1000 * 0xab is encoded in three bytes.
abbrev aml : ℕ → ℕ
aml i = if i == 0 then 0x83 else if i == 1 then 0x12 else if i == 2 then 0xab else 0x70

parse_pkg_length-Encodes_example :
    parse_pkg_length aml 8 garbage ≡ (ok tt, parsed aml 0xab123 2 garbage)
parse_pkg_length-Encodes_example =
    parse_pkg_length-Encodes aml 8 0xab123 2 garbage (two (omega arith) refl refl refl)
      (omega arith)

parse-build_pkg_length_example :
    (q : PkgLength) × (build_pkg_length 100 garbage ≡ (ok tt, q))
    × (q' : PkgLength) × (parse_pkg_length q.aml 4 garbage ≡ (ok tt, q'))
    × (q'.size ≡ kept 100)
    × (q'.encoded_size ≡ q.encoded_size)
parse-build_pkg_length_example =
    parse-build_pkg_length 100 4 garbage garbage (omega arith) (omega arith)

parse_pkg_length_overrun_example : (parse_pkg_length aml 2 garbage).0 ≡ fault
parse_pkg_length_overrun_example =
    parse_pkg_length_overrun aml 2 garbage (omega arith) refl refl (omega arith)

-- A length of 100 comes back as 96.
lost_bits :
    let (r, q) = build_pkg_length 100 garbage in
    let (r', q') = parse_pkg_length q.aml 4 garbage in (q.size ≡ 0) × (q'.size ≡ 96)
unfolding build_pkg_length parse_pkg_length build_loop parse_loop aml_byte
lost_bits = (refl, refl)

-- A DSDT of 40 bytes at 0x1000 and an FADT of 244 bytes at 0x2000.
abbrev tables_memory : Bytes
tables_memory x =
    if x == 0x1004 then 40 else if x == 0x2004 then 244 else if is_zero x then 0 else 7
  where
    is_zero : ℕ → Bool
    is_zero x =
        x == 0x1005 || x == 0x1006 || x == 0x1007 || x == 0x2005 || x == 0x2006 || x == 0x2007

-- Firmware whose pages begin at 0x8000; the world is the number of pages in use.
abbrev pages : PageServices
pages = record {
  World = ℕ;
  allocate_pages = λ highest n w. (true, 0x8000, w + n);
  free_pages = λ addr n w. (true, w - n);
}

abbrev original : Tables ℕ
original = record {
  mem = tables_memory;
  g_fadt = 0x2000;
  g_dsdt = 0x1000;
  g_is_dsdt_patched = false;
  world = 0;
}

abbrev original-Placed : Placed pages aml 3 original 0x8000
original-Placed = record {
  header = omega arith;
  below = omega arith;
  p_some = λ e. omega (arith, e);
  fadt_some = λ e. omega (arith, e);
  fadt_whole = omega arith;
  apart = omega arith;
}

append_dsdt-Grown_example :
    (s' : Tables ℕ) × (append_dsdt pages aml 3 original ≡ (ok tt, s'))
    × Grown pages aml 3 original 0x8000 4096 s'
append_dsdt-Grown_example =
    append_dsdt-Grown pages aml 3 original 0x8000 4096 original-Placed refl refl

abbrev patched : Tables ℕ
patched = record original { g_is_dsdt_patched = true; world = 4096 }

append_dsdt_again-Grown_example :
    (s' : Tables ℕ) × (append_dsdt pages aml 3 patched ≡ (ok tt, s'))
    × Grown pages aml 3 patched 0x8000 4096 s'
append_dsdt_again-Grown_example =
    append_dsdt_again-Grown pages aml 3 patched 0x8000 8192 4096
      (record {
        header = omega arith;
        below = omega arith;
        p_some = λ e. omega (arith, e);
        fadt_some = λ e. omega (arith, e);
        fadt_whole = omega arith;
        apart = omega arith;
      })
      (omega arith) (omega arith) refl refl refl

-- The AML of a DSDT of 60 bytes declares `_PTS` at 4 and, with a package length of two bytes,
-- another method at 12.
abbrev methods_aml : Bytes
methods_aml i =
    if i == 4 || i == 12
    then 0x14
    else if i == 5
    then 16
    else if i == 6
    then 0x5f
    else if i == 7
    then 0x50
    else if i == 8
    then 0x54
    else if i == 9
    then 0x53
    else if i == 13
    then 0x41
    else 1

abbrev methods_memory : Bytes
methods_memory x =
    if x == 0x1004
    then 60
    else if x == 0x1005 || x == 0x1006 || x == 0x1007
    then 0
    else methods_aml (x - 0x1024)

abbrev methods : Tables ℕ
methods = record original { mem = methods_memory }

abbrev pts : Name
pts = record {
  length = 4;
  bytes = λ i. if i == 0 then 0x5f else if i == 1 then 0x50 else if i == 2 then 0x54 else 0x53;
}

abbrev opts : Name
opts = record {
  length = 4;
  bytes = λ i. if i == 0 then 0x4f else if i == 1 then 0x50 else if i == 2 then 0x54 else 0x53;
}

abbrev length_of_pts : PkgLength
length_of_pts = parsed (λ j. dsdt_aml pages methods (4 + 1 + j)) 16 0 garbage

abbrev length_behind : PkgLength
length_behind = parsed (λ j. dsdt_aml pages methods (12 + 1 + j)) 17 1 length_of_pts

only_two : (x : ℕ) → x < 24 → x ≢ 4 → x ≢ 12 → dsdt_aml pages methods x ≢ 0x14
only_two x p q r e = ground (arith, p, q, r, e)

names_apart :
    (same_bytes 4 (dsdt_aml pages methods) 6 pts.bytes 0 ≡ true)
    × (same_bytes 4 (dsdt_aml pages methods) 15 pts.bytes 0 ≡ false)
unfolding same_bytes
names_apart = (refl, refl)

methods-Declared : Declared (dsdt_aml pages methods) 24 pts.bytes 4 12 length_of_pts length_behind
methods-Declared = record {
  order = (omega arith, omega arith);
  ops = (refl, refl);
  others = λ x p a b e. absurd (only_two x (omega (arith, a)) b (λ f. omega (arith, f, a)) e);
  last = λ x a b. only_two x b (λ e. omega (arith, e, a)) (λ e. omega (arith, e, a));
  parses = λ p. (
    parse_pkg_length-Encodes (λ j. dsdt_aml pages methods (4 + 1 + j)) 19 16 0 p
        (lone (omega arith) refl) (omega arith),
    parse_pkg_length-Encodes (λ j. dsdt_aml pages methods (12 + 1 + j)) 11 17 1 p
        (one (omega arith) refl refl) (omega arith),
  );
  fits = (omega arith, omega arith);
  names = names_apart;
}

-- The name is taken to lie a byte further than it does.
find_method_stale_example :
    find_method pages garbage pts.bytes methods ≡ (ok (4, length_behind), methods)
find_method_stale_example =
    find_method_stale pages garbage length_of_pts length_behind pts.bytes 4 12 methods
      methods-Declared

rename_method-Renamed_example :
    (t : Tables ℕ) × (rename_method pages garbage pts opts methods ≡ (ok tt, t))
    × Renamed pages 7 opts.bytes methods t
rename_method-Renamed_example =
    rename_method-Renamed pages garbage length_behind pts opts 4 methods refl refl (omega arith)
      (find_method_stale pages garbage length_of_pts length_behind pts.bytes 4 12 methods
        methods-Declared)
      (omega arith)
