-- ===== src/Uefi/Acpi/Dsdt.antt =====
-- uefi/acpi/patch/dsdt.c: appending AML to the DSDT in a new table.
pub mod Append
pub mod Redirect
pub mod Grown
use switch_os.Base.{
  ℕ, zero, suc, ◌+◌, ◌-◌, ◌*◌, ◌/◌, ◌%◌, ◌^◌, Bool, true, false, not, ltb, leb, ◌==◌, ◌&&◌,
  if◌then◌else◌,
}
use switch_os.Base.Action.{
  ⊤, Action, Result, ok, invalid, pure, fail, gets, modify, check, ◌>>=◌, ◌>>◌,
}
use switch_os.Base.Bytes.{Bytes, blit, store}
use switch_os.Uefi.Acpi.Checksum.{table_length, fix_table_checksum}

abbrev pub page_size : ℕ
page_size = 4096

-- `sizeof(struct acpi_table_header)`
abbrev pub table_header_size : ℕ
table_header_size = 36

-- Where `dsdt` and `x_dsdt` stand in `struct acpi_fadt`.
abbrev pub fadt_dsdt : ℕ
fadt_dsdt = 40

abbrev pub fadt_x_dsdt : ℕ
fadt_x_dsdt = 140

-- `ALIGN_UP(x, EFI_PAGE_SIZE)`
abbrev pub align_up : ℕ → ℕ
align_up x = (x + (page_size - 1)) % 2 ^ 64 / page_size * page_size

-- `BS->AllocatePages` with the highest address and a page count, and `BS->FreePages` with an
-- address and a page count. The Boolean is `EFI_SUCCESS`.
pub record PageServices : Type 1 where
  pub World : Type 0
  pub allocate_pages : (highest pages : ℕ) → World → Bool × ℕ × World
  pub free_pages : (addr pages : ℕ) → World → Bool × World

-- Memory, the globals that point to tables, and the firmware.
pub record Tables (World : Type 0) : Type 0 where
  pub mem : Bytes
  pub g_fadt : ℕ
  pub g_dsdt : ℕ
  pub g_is_dsdt_patched : Bool
  pub world : World

-- `DSDT_AML_SIZE(*dsdt)`
abbrev pub dsdt_aml_size : ℕ → ℕ
dsdt_aml_size length = (length + 2 ^ 64 - table_header_size) % 2 ^ 64

-- The new table at `p`, before the FADT knows of it.
unfoldable pub copy_dsdt : (p dsdt length : ℕ) → Bytes → ℕ → Bytes → Bytes
copy_dsdt p dsdt length aml aml_size m =
    let copied = blit m p m dsdt length in
    let resized = store 4 copied (p + 4) ((length + aml_size) % 2 ^ 32) in
    fix_table_checksum p
      (blit resized ((p + table_header_size + dsdt_aml_size length) % 2 ^ 64) aml 0 aml_size)

module _ (b : PageServices) where
  open b use {World, allocate_pages, free_pages}

  abbrev pub edit : (Bytes → Bytes) → Action (Tables World) ⊤
  edit f = modify (λ s. record s { mem = f s.mem })

  -- The size in bytes is passed as the count of pages.
  unfoldable pub alloc_patched_dsdt : ℕ → Action (Tables World) ℕ
  alloc_patched_dsdt size = do
    (success, patched_dsdt) ← λ s.
        (let (r, p, w) = allocate_pages (2 ^ 32 - 1) (align_up size) s.world in
          (ok (r, p), record s { world = w }))
    check success
    check (not (patched_dsdt == 0))
    pure patched_dsdt

  unfoldable pub free_patched_dsdt : Action (Tables World) ⊤
  free_patched_dsdt = do
    patched ← gets (λ s. s.g_is_dsdt_patched)
    check patched
    success ← λ s.
        (let (r, w) = free_pages s.g_dsdt (align_up (table_length s.g_dsdt s.mem)) s.world in
          (ok r, record s { world = w }))
    check success

  unfoldable pub redirect_dsdt : ℕ → Action (Tables World) ⊤
  redirect_dsdt new_dsdt = do
    fadt ← gets (λ s. s.g_fadt)
    check (not (fadt == 0))
    edit (λ m. store 8 m (fadt + fadt_x_dsdt) new_dsdt)
    edit (λ m. store 4 m (fadt + fadt_dsdt) (new_dsdt % 2 ^ 32))
    edit (fix_table_checksum fadt)

  unfoldable pub append_dsdt : Bytes → ℕ → Action (Tables World) ⊤
  append_dsdt aml aml_size = do
    dsdt ← gets (λ s. s.g_dsdt)
    length ← gets (λ s. table_length s.g_dsdt s.mem)
    patched_dsdt ← alloc_patched_dsdt ((length + aml_size) % 2 ^ 64)
    edit (copy_dsdt patched_dsdt dsdt length aml aml_size)
    redirect_dsdt patched_dsdt
    patched ← gets (λ s. s.g_is_dsdt_patched)
    if patched then free_patched_dsdt else pure tt
    modify (λ s. record s { g_dsdt = patched_dsdt; g_is_dsdt_patched = true })
