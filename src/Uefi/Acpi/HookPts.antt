-- ===== src/Uefi/Acpi/HookPts.antt =====
-- uefi/acpi/hook_pts.c: putting a hook before the `_PTS` method of the DSDT.
pub mod Parts
pub mod Created
mod Tests
use switch_os.Base.{
  ℕ, zero, suc, ◌+◌, ◌-◌, ◌%◌, ◌^◌, Bool, true, false, not, ltb, leb, ◌==◌, List, [], ◌∷◌,
  if◌then◌else◌,
}
use switch_os.Base.Action.{
  ⊤, Action, Result, ok, invalid, fault, hang, pure, fail, gets, modify, check, ◌>>=◌, ◌>>◌,
}
use switch_os.Base.Bytes.{Bytes, in_range, store}
use switch_os.Uefi.Acpi.PkgLength.{PkgLength}
use switch_os.Uefi.Acpi.Dsdt.{PageServices, Tables}
use switch_os.Uefi.Acpi.Method.{
  aml_method_name_len, Name, MethodPart, find_method, append_method, hook_method,
}
use Prim.Native.String.{String}
use text.Mathlib.Text.{◌==◌ as str_eq}

-- An entry of the generated `SSDT__OffsetTable`.
pub record OffsetTableEntry : Type 0 where
  pub pathname : String
  pub offset : ℕ

-- What the build generates from asl/pts_hook.asl, except for the content of `SSDT___PTS_FACS`:
-- the offset table, the sizes of `SSDT__Header` and of the two parts, and the first part.
pub record Generated : Type 0 where
  pub offset_table : List OffsetTableEntry
  pub header_size : ℕ
  pub pts : Bytes
  pub pts_size : ℕ
  pub pts_facs_size : ℕ

-- The tables, the global `g_facs`, and the static array `SSDT___PTS_FACS`, which is written to.
pub record Hooks (World : Type 0) : Type 0 where
  pub tables : Tables World
  pub g_facs : ℕ
  pub pts_facs : Bytes

-- `-1` as a `size_t`
abbrev pub unset_offset : ℕ
unset_offset = 2 ^ 64 - 1

abbrev pub pts_name : Name
pts_name = record {
  length = 4;
  bytes = λ i. if i == 0 then 0x5f else if i == 1 then 0x50 else if i == 2 then 0x54 else 0x53;
}

abbrev pub spts_name : Name
spts_name = record {
  length = 4;
  bytes = λ i. if i == 0 then 0x53 else if i == 1 then 0x50 else if i == 2 then 0x54 else 0x53;
}

-- `AML_METHOD_NAME_LEN + 1`
abbrev pub call_spts_byte_count : ℕ
call_spts_byte_count = aml_method_name_len + 1

module _ (g : Generated) where
  -- The offset within `SSDT___PTS_FACS`.
  abbrev pub in_pts_facs : ℕ → ℕ
  in_pts_facs offset = (offset + 2 ^ 64 - g.header_size + 2 ^ 64 - g.pts_size) % 2 ^ 64

  unfoldable pub offset_loop : List OffsetTableEntry → ℕ → ℕ
  offset_loop [] facs_addr_reloc_offset = facs_addr_reloc_offset
  offset_loop (e ∷ es) facs_addr_reloc_offset =
      if str_eq e.pathname "_PTS.FACS"
      then offset_loop es (in_pts_facs e.offset)
      else offset_loop es facs_addr_reloc_offset

-- `memset(SSDT___PTS_FACS + at, AML_ZERO_OP, n)`
unfoldable pub zero_ops : Bytes → (at n : ℕ) → Bytes
zero_ops m at n x = if in_range at n x then 0 else m x

module _ (b : PageServices) (g : Generated) where
  open b use {World}

  -- A write of `n` bytes at `at` to `SSDT___PTS_FACS`.
  abbrev pub patch : (at n : ℕ) → (Hooks World → Bytes) → Action (Hooks World) ⊤
  patch at n f =
      if leb (at + n) g.pts_facs_size then modify (λ s. record s { pts_facs = f s }) else fail fault

  abbrev pub with_tables :
      {A : Type 0} → Hooks World → Result A × Tables World → Result A × Hooks World
  with_tables s (r, t) = (r, record s { tables = t })

  abbrev pub on_tables : {A : Type 0} → Action (Tables World) A → Action (Hooks World) A
  on_tables m s = with_tables s (m s.tables)

  unfoldable pub pts_relocate_facs_addr : Action (Hooks World) ⊤
  pts_relocate_facs_addr = do
    let facs_addr_reloc_offset = offset_loop g g.offset_table unset_offset
    check (not (facs_addr_reloc_offset == unset_offset))
    check (leb ((facs_addr_reloc_offset + 4) % 2 ^ 64) g.pts_facs_size)
    patch facs_addr_reloc_offset 4
        (λ s. store 4 s.pts_facs facs_addr_reloc_offset (s.g_facs % 2 ^ 32))

  abbrev pub pts_parts : Hooks World → List MethodPart
  pts_parts s =
      record { aml = g.pts; size = g.pts_size }
      ∷ record { aml = s.pts_facs; size = g.pts_facs_size }
      ∷ []

  -- The call of `SPTS` at the end of the hook is overwritten.
  unfoldable pub create_pts : Action (Hooks World) ⊤
  create_pts = do
    let at = (g.pts_facs_size + 2 ^ 64 - call_spts_byte_count) % 2 ^ 64
    patch at call_spts_byte_count (λ s. zero_ops s.pts_facs at call_spts_byte_count)
    parts ← gets pts_parts
    on_tables (append_method b parts)

  unfoldable pub hook_pts : PkgLength → Action (Hooks World) ⊤
  hook_pts garbage = do
    parts ← gets pts_parts
    on_tables (hook_method b garbage pts_name spts_name parts)

  -- The branch on what `find_method` returned.
  abbrev pub on_found : {A : Type 0} → PkgLength → Result A × Hooks World → Result ⊤ × Hooks World
  on_found garbage (ok a, s) = hook_pts garbage s
  on_found garbage (invalid, s) = create_pts s
  on_found garbage (fault, s) = (fault, s)
  on_found garbage (hang, s) = (hang, s)

  -- What the uninitialised `pkg_length` holds in the first and in the second call of `find_method`.
  unfoldable pub create_or_hook_pts : (garbage garbage' : PkgLength) → Action (Hooks World) ⊤
  create_or_hook_pts garbage garbage' = do
    pts_relocate_facs_addr
    λ s. on_found garbage' (on_tables (find_method b garbage pts_name.bytes) s)
