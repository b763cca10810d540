-- ===== src/Uefi/SetVariable/Tests.antt =====
-- A machine on which the theorems about the SetVariable hook are applied.
use switch_os.Base.{
  ℕ, ◌+◌, ◌-◌, ◌/◌, ◌%◌, ◌≡◌, refl, true, false, leb, ltb, ◌==◌, ◌&&◌, List, [], ◌∷◌, if◌then◌else◌,
  arith,
}
use switch_os.Base.Action.{Action, ok}
use switch_os.Base.Bytes.{Bytes, byte_of}
use switch_os.Uefi.Acpi.Method.{same_bytes}
use switch_os.Uefi.SetVariable.{
  HookHeader, Call, ServiceState, efi_commands_guid, set_core_action_name,
  windows_sleep_checkpoint_variable_name, wstrcmp_is_0, is_commands_guid, is_checkpoint,
}
use switch_os.Uefi.SetVariable.Vector.{Hooked, Separate, after_calls, checkpoint_then_calls-Hooked}

abbrev at_or_0 : List ℕ → ℕ → ℕ
at_or_0 [] i = 0
at_or_0 (c ∷ cs) i = let rest = at_or_0 cs (i - 1) in if i == 0 then c else rest

-- Characters of two bytes.
abbrev wide : List ℕ → ℕ → ℕ
wide cs i = if i % 2 == 0 then at_or_0 cs (i / 2) else 0

-- The commands' GUID is at 0x100, another at 0x200, the names at 0x300 and 0x400, the action to
-- store at 0x500, and the waking vector 0x9a000 at 0x60c.
abbrev memory : Bytes
memory x =
    if leb 0x100 x && ltb x 0x110
    then efi_commands_guid (x - 0x100)
    else if leb 0x300 x && ltb x 0x380
    then wide set_core_action_name (x - 0x300)
    else if leb 0x400 x && ltb x 0x480
    then wide windows_sleep_checkpoint_variable_name (x - 0x400)
    else if x == 0x500
    then 1
    else if x == 0x60d
    then 0xa0
    else if x == 0x60e
    then 9
    else 0

abbrev header : HookHeader
header = record {
  waking_vector_addr = 0x60c;
  original_waking_vector_addr = 0x628;
  core_header = 0x1000;
}

-- A service that counts its calls.
abbrev counting : Call → Action (ServiceState ℕ) ℕ
counting c s = (ok 0, record s { world = s.world + 1 })

abbrev start : ServiceState ℕ
start = record { mem = memory; world = 0 }

abbrev command : Call
command = record {
  variable_name = 0x300;
  vendor_guid = 0x100;
  attributes = 7;
  data_size = 4;
  data_ptr = 0x500;
}

abbrev checkpoint : Call
checkpoint = record {
  variable_name = 0x400;
  vendor_guid = 0x200;
  attributes = 7;
  data_size = 8;
  data_ptr = 0x500;
}

counting-Separate : Separate header 1 counting
counting-Separate = record {
  vectors = omega arith;
  action = omega arith;
  action_saved = omega arith;
  waking_kept = λ c s. refl;
  original_kept = λ c s. refl;
}

guids : (is_commands_guid memory 0x100 ≡ true) × (is_commands_guid memory 0x200 ≡ false)
unfolding is_commands_guid same_bytes byte_of
guids = (refl, refl)

at_checkpoint : is_checkpoint header checkpoint memory ≡ true
unfolding wstrcmp_is_0
at_checkpoint = refl

checkpoint_then_calls-Hooked_example :
    Hooked header 1 counting 0x9a000
      (after_calls header 1 counting (checkpoint ∷ command ∷ checkpoint ∷ []) start)
checkpoint_then_calls-Hooked_example =
    checkpoint_then_calls-Hooked header 1 counting 0x9a000 checkpoint (command ∷ checkpoint ∷ [])
      start counting-Separate (omega arith) refl guids.1 at_checkpoint
