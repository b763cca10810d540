-- ===== src/Core/Main/Tests.antt =====
-- A machine and a uACPI on which the theorems about `core_main` are applied.
use switch_os.Base.{ℕ, ◌+◌, ◌%◌, ◌≤◌, ◌<◌, ◌≡◌, refl, true, List, [], ◌∷◌, arith}
use switch_os.Base.Action.{ok, pure}
use switch_os.Base.Bytes.{Outside}
use switch_os.Core.Dump.Layout.{header_size, get_header}
use switch_os.Core.Header.{
  max_ram_areas, CoreHeader, core_action_switch, core_header_magic, is_core_header_valid,
  is_core_header_magic_valid, is_core_header_action_valid, is_core_header_facs_valid,
  is_core_header_rsdp_valid, is_core_header_ram_areas_valid, ram_areas_loop,
}
use switch_os.Core.Dump.Ideal.{Pair, ideal, Sound, ideal-Works}
use switch_os.Core.Main.{Acpi, core_main}
use switch_os.Core.Main.Store.{sleeping}
use switch_os.Core.Main.Switch.{core_main_no_dump}
use switch_os.Core.Dump.Valid.{Valid}
use switch_os.Core.Dump.HeaderIo.{header_on}

abbrev header : ℕ → CoreHeader
header action = record {
  magic = core_header_magic;
  action = action;
  facs = 0x2000;
  rsdp = 0x3000;
  addr = record { bus = 0; device = 4; function = 0 };
  bars = λ i. 0xfe000000;
  ram_areas_size = 1;
  ram_areas = λ i. record { start = 0x100000; size = 1024 };
}

abbrev header_at : ℕ
header_at = 0x41020000

abbrev switch_buf : ℕ
switch_buf = 0x42000000

abbrev machine : Pair
machine = record { ram = λ x. (x + 3) % 256; disk = λ x. 0 }

machine-Sound : Sound machine
machine-Sound = ((λ x. omega arith), λ x. omega arith)

-- A uACPI whose world is the list of the calls: 0 is `enter_s3`, 1 and 2 are the other calls, and a
-- vector is itself.
abbrev log : Acpi
log = record {
  World = List ℕ;
  state_reset = λ w. 1 ∷ w;
  initialize = λ w. (true, 2 ∷ w);
  namespace_load = λ w. (true, w);
  namespace_initialize = λ w. (true, w);
  finalize_gpe_initialization = λ w. (true, w);
  prepare_for_s3 = λ w. w;
  set_waking_vector = λ v w. v ∷ w;
  enter_s3 = λ w. 0 ∷ w;
}

header-valid : (action : ℕ) → action < 3 → is_core_header_valid (header action) ≡ true
unfolding is_core_header_valid is_core_header_magic_valid is_core_header_action_valid
    is_core_header_facs_valid is_core_header_rsdp_valid is_core_header_ram_areas_valid
    ram_areas_loop
header-valid action p = ground arith

-- The disk is all zeros.
no_dump : ¬ Valid (header core_action_switch) (header_on machine.disk)
unfolding get_header
no_dump v = let e = v.magic in ground (arith, e)

few_areas : (header_on machine.disk).areas_size ≤ max_ram_areas
unfolding get_header
few_areas = omega arith

core_main_no_dump_example :
    (t : Pair) × (core_main ideal
        (header core_action_switch)
        header_at
        switch_buf
        (λ s. s)
        (pure tt)
        log
        (machine, [])
      ≡ (
        ok tt,
        (
          t,
          sleeping ideal
              (header core_action_switch)
              header_at
              switch_buf
              (λ s. s)
              (pure tt)
              log
              0x2e2d2c2b
              [],
        ),
      ))
    × (t.disk ≡ machine.disk)
    × ((x : ℕ) → Outside header_at header_size x → t.ram x ≡ machine.ram x)
core_main_no_dump_example =
    core_main_no_dump ideal (header core_action_switch) header_at switch_buf Sound ideal-Works
      (λ s. s) (pure tt) log machine machine [] (header-valid 2 (omega arith)) refl
      (λ e. omega (arith, e)) refl machine-Sound few_areas no_dump
