-- ===== src/Uefi/SetVariable.antt =====
-- The hook of the runtime service SetVariable (uefi/services/hooks/set_variable/).
pub mod Vector
mod Tests
use switch_os.Base.{
  ℕ, zero, suc, ◌+◌, ◌-◌, ◌*◌, ◌^◌, Bool, true, false, not, ltb, ◌==◌, ◌&&◌, List, [], ◌∷◌,
  if◌then◌else◌,
}
use switch_os.Base.Action.{
  ⊤, Action, Result, ok, invalid, fault, hang, pure, fail, gets, modify, check, ◌>>=◌, ◌>>◌,
}
use switch_os.Base.Bytes.{Bytes, byte_of, load32, store}
use switch_os.Core.Header.{is_core_header_action_valid}
use switch_os.Uefi.Acpi.Method.{same_bytes}

-- `struct set_variable_hook_header` without the original service, which is a parameter.
pub record HookHeader : Type 0 where
  pub waking_vector_addr : ℕ
  pub original_waking_vector_addr : ℕ
  pub core_header : ℕ

-- The arguments of a call; the name, the GUID and the data are pointers.
pub record Call : Type 0 where
  pub variable_name : ℕ
  pub vendor_guid : ℕ
  pub attributes : ℕ
  pub data_size : ℕ
  pub data_ptr : ℕ

-- Memory and the firmware.
pub record ServiceState (World : Type 0) : Type 0 where
  pub mem : Bytes
  pub world : World

-- Where `action` stands in `struct core_header`.
abbrev pub header_action : ℕ
header_action = 4

abbrev pub core_wakeup_phys_addr : ℕ
core_wakeup_phys_addr = 0x1000

-- `EFI_COMMANDS_GUID` in memory
abbrev pub efi_commands_guid : Bytes
efi_commands_guid i =
    if ltb i 4
    then byte_of 0xe21c66ed i
    else if ltb i 6
    then byte_of 0xbc2e (i - 4)
    else if ltb i 8
    then byte_of 0x4d30 (i - 6)
    else byte_of 0x41c50280961b5eac (i - 8)

-- L"SET_CORE_ACTION"
abbrev pub set_core_action_name : List ℕ
set_core_action_name = 83 ∷ 69 ∷ 84 ∷ 95 ∷ 67 ∷ 79 ∷ 82 ∷ 69 ∷ 95 ∷ 65 ∷ 67 ∷ 84 ∷ 73 ∷ 79 ∷ 78 ∷ []

-- L"SystemSleepCheckpoint"
abbrev pub windows_sleep_checkpoint_variable_name : List ℕ
windows_sleep_checkpoint_variable_name =
    83 ∷ 121 ∷ 115 ∷ 116 ∷ 101 ∷ 109 ∷ 83 ∷ 108 ∷ 101 ∷ 101 ∷ 112 ∷ 67 ∷ 104 ∷ 101 ∷ 99 ∷ 107 ∷ 112
    ∷ 111 ∷ 105 ∷ 110 ∷ 116 ∷ []

abbrev pub load16 : Bytes → ℕ → ℕ
load16 m a = m a + 2 ^ 8 * m (a + 1)

-- `wstrcmp(str1, str2) == 0`, where `str2` holds the characters before its final 0.
unfoldable pub wstrcmp_is_0 : Bytes → ℕ → List ℕ → Bool
wstrcmp_is_0 m str1 [] = load16 m str1 == 0
wstrcmp_is_0 m str1 (c ∷ str2) =
    let rest = wstrcmp_is_0 m (str1 + 2) str2 in if load16 m str1 == c then rest else false

unfoldable pub is_commands_guid : Bytes → ℕ → Bool
is_commands_guid m guid = same_bytes 16 m guid efi_commands_guid 0

module _ (h : HookHeader) where
  -- The waking vector is the kernel's, and the variable that of a sleep checkpoint.
  abbrev pub is_checkpoint : Call → Bytes → Bool
  is_checkpoint c m =
      wstrcmp_is_0 m c.variable_name windows_sleep_checkpoint_variable_name
      && not (load32 m h.waking_vector_addr == core_wakeup_phys_addr)

  abbrev pub take_vector : Bytes → Bytes
  take_vector m =
      store 4 (store 4 m h.original_waking_vector_addr (load32 m h.waking_vector_addr))
        h.waking_vector_addr core_wakeup_phys_addr

module _ {World : Type 0} (h : HookHeader) where
  abbrev pub edit_mem : (Bytes → Bytes) → Action (ServiceState World) ⊤
  edit_mem f = modify (λ s. record s { mem = f s.mem })

  unfoldable pub set_core_action_handler : (data_ptr data_size : ℕ) → Action (ServiceState World) ⊤
  set_core_action_handler data_ptr data_size = do
    check (data_size == 4)
    action ← gets (λ s. load32 s.mem data_ptr)
    check (is_core_header_action_valid action)
    edit_mem (λ m. store 4 m (h.core_header + header_action) action)

  -- A command of another name is passed over.
  unfoldable pub handle_command : (cmd_name data_ptr data_size : ℕ) → Action (ServiceState World) ⊤
  handle_command cmd_name data_ptr data_size = do
    known ← gets (λ s. wstrcmp_is_0 s.mem cmd_name set_core_action_name)
    if known then set_core_action_handler data_ptr data_size else pure tt

  -- `efierr` is `EFIERR` of the EFI library, at `ERR_INVALID`. The status is `EFI_SUCCESS` at 0.
  abbrev pub status_of :
      (efierr : ℕ) → Result ⊤ × ServiceState World → Result ℕ × ServiceState World
  status_of efierr (ok a, s) = (ok 0, s)
  status_of efierr (invalid, s) = (ok efierr, s)
  status_of efierr (fault, s) = (fault, s)
  status_of efierr (hang, s) = (hang, s)

  unfoldable pub set_variable :
      (efierr : ℕ) (original_set_variable : Call → Action (ServiceState World) ℕ)
      → Call
      → Action (ServiceState World) ℕ
  set_variable efierr original_set_variable c s =
      if is_commands_guid s.mem c.vendor_guid
      then (if c.data_size == 0
          then (ok 0, s)
          else status_of efierr (handle_command c.variable_name c.data_ptr c.data_size s))
      else (if is_checkpoint h c s.mem
          then original_set_variable c (record s { mem = take_vector h s.mem })
          else original_set_variable c s)
