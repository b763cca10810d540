-- ===== src/Core/Dump/Tests.antt =====
-- Runs of core/dump.c on the ideal disk, and the theorems at concrete dumps.
use switch_os.Base.{ℕ, zero, suc, ◌+◌, ◌%◌, ◌<◌, ◌≡◌, ◌≢◌, refl, inl, arith, true, Bool}
use mathlib.Core.Logic.{◌↔◌}
use switch_os.Base.Action.{ok, fault, pure}
use switch_os.Base.Bytes.{Bytes, blit, byte_of}
use switch_os.Core.Header.{
  CoreHeader, core_header_magic, core_action_switch, is_core_header_valid,
  is_core_header_magic_valid, is_core_header_action_valid, is_core_header_facs_valid,
  is_core_header_rsdp_valid, is_core_header_ram_areas_valid, ram_areas_loop,
}
use switch_os.Core.Main.{Acpi, core_main}
use switch_os.Core.Main.Store.{sleeping}
use switch_os.Core.Main.Switch.{core_main_switch-Exchanged}
use switch_os.Core.Dump.{
  core_disk_dump_magic, is_dump_header_valid, disk_store_dump, does_disk_contain_dump,
  disk_load_dump, read_dump_header, write_dump_header, find_original_waking_vector, switch_round,
  switch_loop, sizes_loop, match_loop, switch_memory_area, switch_areas, disk_switch_dump,
}
use switch_os.Core.Dump.Layout.{
  DumpHeader, header_byte, area_byte, put_header, get_area, get_header,
}
use switch_os.Core.Dump.Layout.RoundTrip.{Fits, Same, get-put_header, put_header-IsBytes}
use switch_os.Core.Dump.HeaderIo.{header_on}
use switch_os.Core.Dump.Ideal.{Pair, ideal, Sound, ideal-Works}
use switch_os.Core.Dump.Switch.{Swaps, Ends, Usable, switch_memory_area-Swaps}
use switch_os.Core.Dump.Valid.{Valid, is_dump_header_valid_iff, is_dump_header_valid_overrun}
use switch_os.Core.Dump.Exchange.{Placed, saved_vector, Exchanged, disk_switch_dump-Exchanged}
use switch_os.Core.Dump.SameAreas.{Valid-Same}
use switch_os.Core.Dump.Twice.{Placed-areas, Restored, disk_switch_dump_twice}
use switch_os.Core.Dump.Fill.{Whole}
use switch_os.Core.Dump.StoreLoad.{Dumpable, Dumped, disk_store_dump-Dumped}
use switch_os.Core.Dump.LoadBack.{SameAreas, store_then_load}

abbrev core : CoreHeader
core = record {
  magic = core_header_magic;
  action = core_action_switch;
  facs = 0x2000;
  rsdp = 0x3000;
  addr = record { bus = 0; device = 4; function = 0 };
  bars = λ _. 0xfe000000;
  ram_areas_size = 1;
  ram_areas = λ _. record { start = 0x100000; size = 1024 };
}

abbrev dump : DumpHeader
dump = record {
  magic = core_disk_dump_magic;
  waking_vector = 0x9000;
  areas_size = 1;
  areas = λ _. record { start = 0x100000; size = 1024; sector = 4 };
}

abbrev header_at : ℕ
header_at = 0x41020000

abbrev switch_buf : ℕ
switch_buf = 0x42000000

abbrev bytes : ℕ → Bytes
bytes n x = (x + n) % 256

abbrev machine : Pair
machine = record { ram = bytes 3; disk = put_header dump 0 (bytes 7) }

machine-Sound : Sound machine
machine-Sound = ((λ x. omega arith), put_header-IsBytes dump 0 (bytes 7) (λ x. omega arith))

only_zero : (P : ℕ → Type 0) → P 0 → (j : ℕ) → j < 1 → P j
only_zero P p zero h = p
only_zero P p (suc j) h = absurd (omega arith)

dump-Fits : Fits dump
dump-Fits = record {
  magic = omega arith;
  waking_vector = omega arith;
  areas_size = omega arith;
  area = λ i p. (omega arith, omega arith, omega arith);
}

area-Usable : Usable switch_buf (record { start = 0x100000; size = 1024; sector = 4 })
area-Usable = record {
  whole = refl;
  fits = omega arith;
  sector_fits = omega arith;
  clear = inl (omega arith);
}

switch_memory_area-Swaps_example :
    Ends ideal switch_buf Sound
      (switch_memory_area ideal core header_at switch_buf
        (record { start = 0x100000; size = 1024; sector = 4 }))
      machine
      (Swaps ideal switch_buf Sound 0x100000 2048 1024)
switch_memory_area-Swaps_example =
    switch_memory_area-Swaps ideal switch_buf Sound core header_at ideal-Works
      (record { start = 0x100000; size = 1024; sector = 4 }) machine machine-Sound area-Usable

-- The whole run on the machine: the first byte of the area and of its dump have traded places.
switched_bytes :
    let r = disk_switch_dump ideal core header_at switch_buf (machine, 0) in
    (r.0 ≡ ok tt) × (r.1.1 ≡ 0x9000) × (r.1.0.ram 0x100000 ≡ 7) × (r.1.0.disk 2048 ≡ 3)
unfolding disk_switch_dump is_dump_header_valid blit put_header header_byte area_byte byte_of
    get_header get_area read_dump_header write_dump_header find_original_waking_vector switch_areas
    switch_memory_area switch_loop switch_round sizes_loop match_loop
switched_bytes = (refl, refl, refl, refl)

found : Same (header_on machine.disk) dump
found = get-put_header dump 0 (bytes 7) dump-Fits (omega arith)

dump-Valid : Valid core dump
dump-Valid = record {
  magic = refl;
  waking_vector = omega arith;
  some_area = omega arith;
  count = refl;
  area = λ j p. (omega arith, refl, refl);
}

found-Valid : Valid core (header_on machine.disk)
found-Valid = Valid-Same (header_on machine.disk) dump found core dump-Valid

none_before : {P : Type 0} (j l : ℕ) → j < l → l < 0 + 1 → P
none_before j l p q = absurd (omega arith)

dump-Placed : Placed core header_at switch_buf dump
dump-Placed = record {
  usable = λ j a b. area-Usable;
  separate = record {
    ram_apart = λ j l a b c. none_before j l b c;
    disk_apart = λ j l a b c. none_before j l b c;
  };
  behind = λ j a. omega arith;
  header_apart = λ j a. omega arith;
  buffers_apart = omega arith;
  facs_header = omega arith;
  facs_buf = omega arith;
  facs_areas = λ j a. omega arith;
}

found-Placed : Placed core header_at switch_buf (header_on machine.disk)
found-Placed =
    Placed-areas (header_on machine.disk) dump found.areas_size found.area core header_at switch_buf
      dump-Placed

is_dump_header_valid_iff_example :
    (b : Bool) × (is_dump_header_valid core dump machine ≡ (ok b, machine))
    × ((b ≡ true) ↔ Valid core dump)
is_dump_header_valid_iff_example = is_dump_header_valid_iff machine core dump (omega arith)

is_dump_header_valid_overrun_example :
    (is_dump_header_valid core (record dump { areas_size = 65 }) machine).0 ≡ fault
is_dump_header_valid_overrun_example =
    is_dump_header_valid_overrun machine core (record dump { areas_size = 65 }) refl (omega arith)
      (omega arith) (λ j p. omega arith)

awake : saved_vector core machine.ram ≢ 0
awake = omega arith

disk_switch_dump-Exchanged_example :
    (v : Pair) × (disk_switch_dump ideal core header_at switch_buf (machine, 0)
      ≡ (ok tt, (v, (header_on machine.disk).waking_vector)))
    × Exchanged ideal core header_at switch_buf Sound (header_on machine.disk) machine v
disk_switch_dump-Exchanged_example =
    disk_switch_dump-Exchanged ideal core header_at switch_buf Sound ideal-Works machine 0
      machine-Sound (omega arith) found-Valid found-Placed awake

disk_switch_dump_twice_example :
    (v : Pair) × (disk_switch_dump ideal core header_at switch_buf (machine, 0)
      ≡ (ok tt, (v, (header_on machine.disk).waking_vector)))
    × (w : Pair) × (disk_switch_dump ideal core header_at switch_buf (v, 5)
        ≡ (ok tt, (w, saved_vector core machine.ram)))
    × Restored ideal core header_at switch_buf Sound ideal-Works (header_on machine.disk) machine w
disk_switch_dump_twice_example =
    disk_switch_dump_twice ideal core header_at switch_buf Sound ideal-Works machine 0 5
      machine-Sound (omega arith) found-Valid found-Placed awake

core-Whole : Whole core
core-Whole = record {
  few = omega arith;
  some_area = omega arith;
  area = λ j p. (omega arith, refl);
  fits = omega arith;
}

core-Dumpable : Dumpable core header_at
core-Dumpable = record {
  whole = core-Whole;
  words = λ j p. (omega arith, omega arith);
  apart = λ j l p q. none_before j l p q;
  header_apart = λ j p. omega arith;
}

dumped :
    (v : Pair) × (disk_store_dump ideal core header_at switch_buf machine ≡ (ok tt, v))
    × Dumped ideal core header_at switch_buf Sound ideal-Works core-Dumpable machine v
dumped =
    disk_store_dump-Dumped ideal core header_at switch_buf Sound ideal-Works core-Dumpable machine
      machine-Sound awake

stored : Pair
stored = dumped.0

-- Later the memory is all zeros.
later : Pair
unfolding stored
later = record { ram = λ x. 0; disk = stored.disk }

store_then_load_example :
    ((t : Pair) × (does_disk_contain_dump ideal core header_at switch_buf later ≡ (ok true, t))
      × (t.disk ≡ stored.disk))
    × ((w : Pair) × (disk_load_dump ideal core header_at switch_buf later
          ≡ (ok (saved_vector core machine.ram), w))
        × SameAreas ideal core header_at switch_buf Sound ideal-Works core-Dumpable machine w)
unfolding later stored
store_then_load_example =
    store_then_load ideal core header_at switch_buf Sound ideal-Works core-Dumpable machine stored
      later machine-Sound awake dumped.1 ((λ x. omega arith), dumped.2.is_ready.1) refl

-- A uACPI whose world is the last vector.
abbrev acpi : Acpi
acpi = record {
  World = ℕ;
  state_reset = λ w. w;
  initialize = λ w. (true, w);
  namespace_load = λ w. (true, w);
  namespace_initialize = λ w. (true, w);
  finalize_gpe_initialization = λ w. (true, w);
  prepare_for_s3 = λ w. w;
  set_waking_vector = λ v w. v;
  enter_s3 = λ w. w;
}

core-valid : is_core_header_valid core ≡ true
unfolding is_core_header_valid is_core_header_magic_valid is_core_header_action_valid
    is_core_header_facs_valid is_core_header_rsdp_valid is_core_header_ram_areas_valid
    ram_areas_loop
core-valid = refl

core_main_switch-Exchanged_example :
    (v : Pair) × (core_main ideal core header_at switch_buf (λ s. s) (pure tt) acpi (machine, 0) ≡ (
      ok tt,
      (
        v,
        sleeping ideal core header_at switch_buf
            (λ s. s)
            (pure tt)
            acpi
            (header_on machine.disk).waking_vector
            0,
      ),
    ))
    × Exchanged ideal core header_at switch_buf Sound (header_on machine.disk) machine v
core_main_switch-Exchanged_example =
    core_main_switch-Exchanged ideal core header_at switch_buf Sound ideal-Works (λ s. s) (pure tt)
      acpi machine machine 0 core-valid (omega arith) refl awake refl machine-Sound awake
      found-Valid found-Placed
