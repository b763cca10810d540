-- ===== src/Uefi/Acpi/Method.antt =====
-- uefi/acpi/patch/method.c: finding, renaming and hooking an AML method of the DSDT.
pub mod Finding
pub mod Rename
use switch_os.Base.{
  ℕ, zero, suc, ◌+◌, ◌-◌, ◌*◌, ◌/◌, ◌%◌, ◌^◌, Bool, true, false, not, ltb, leb, ◌==◌, ◌&&◌, List,
  [], ◌∷◌, Option, none, some, if◌then◌else◌,
}
use switch_os.Base.Action.{
  ⊤, Action, Result, ok, invalid, fault, hang, pure, fail, gets, modify, check, ◌>>=◌, ◌>>◌,
}
use switch_os.Base.Bytes.{Bytes, blit}
use switch_os.Uefi.Acpi.Checksum.{table_length, fix_table_checksum}
use switch_os.Uefi.Acpi.PkgLength.{PkgLength, parse_pkg_length}
use switch_os.Uefi.Acpi.Dsdt.{
  PageServices, Tables, dsdt_aml_size, table_header_size, append_dsdt, edit,
}

abbrev pub aml_method_op : ℕ
aml_method_op = 0x14

abbrev pub aml_method_name_len : ℕ
aml_method_name_len = 4

-- `memcmp(a + i, name + j, n) == 0`
unfoldable pub same_bytes : ℕ → Bytes → ℕ → Bytes → ℕ → Bool
same_bytes zero a i name j = true
same_bytes (suc n) a i name j =
    let rest = same_bytes n a (i + 1) name (j + 1) in if a i == name j then rest else false

-- `method_start`, where `none` is -1, and `pkg_length`.
pub record Scan : Type 0 where
  pub method_start : Option ℕ
  pub pkg_length : PkgLength

-- The length of the name is that of the C string.
pub record Name : Type 0 where
  pub length : ℕ
  pub bytes : Bytes

pub record MethodPart : Type 0 where
  pub aml : Bytes
  pub size : ℕ

module _ (aml : Bytes) (aml_size : ℕ) (name : Bytes) where
  abbrev pub found_first : ℕ → Option ℕ → Action Scan ⊤
  found_first i none = modify (λ s. record s { method_start = some i })
  found_first i (some j) = fail invalid

  -- What follows a after_length package length at `i`.
  unfoldable pub check_name : ℕ → Action Scan ⊤
  check_name i = do
    s ← gets (λ s. s)
    let at = i + 1 + s.pkg_length.encoded_size
    check (leb (at + aml_method_name_len) aml_size)
    if same_bytes aml_method_name_len aml at name 0 then found_first i s.method_start else pure tt

  -- An error of `parse_pkg_length` is passed over.
  abbrev pub after_length : ℕ → Result ⊤ → Action Scan ⊤
  after_length i (ok a) = check_name i
  after_length i invalid = pure tt
  after_length i fault = fail fault
  after_length i hang = fail hang

  abbrev pub with_length : Scan → Result ⊤ × PkgLength → Result (Result ⊤) × Scan
  with_length s (r, p) = (ok r, record s { pkg_length = p })

  unfoldable pub find_round : ℕ → Action Scan ⊤
  find_round i = if not (aml i == aml_method_op) then pure tt else (do
    r ← (λ s.
        with_length s (parse_pkg_length (λ j. aml (i + 1 + j)) (aml_size - i - 1) s.pkg_length))
    after_length i r)

  -- The loop of `find_method` from offset `i` on, with the rounds left.
  unfoldable pub find_loop : ℕ → ℕ → Action Scan ⊤
  find_loop zero i = pure tt
  find_loop (suc k) i = find_round i >> find_loop k (suc i)

module _ (b : PageServices) where
  open b use {World}

  abbrev pub start_of : Option ℕ → PkgLength → Action (Tables World) (ℕ × PkgLength)
  start_of (some i) p = pure (i, p)
  start_of none p = fail invalid

  abbrev pub scanned : Tables World → Result ⊤ × Scan → Result (ℕ × PkgLength) × Tables World
  scanned s (ok a, t) = start_of t.method_start t.pkg_length s
  scanned s (invalid, t) = (invalid, s)
  scanned s (fault, t) = (fault, s)
  scanned s (hang, t) = (hang, s)

  -- `garbage` is what the uninitialised `pkg_length` holds.
  unfoldable pub find_method : (garbage : PkgLength) → Bytes → Action (Tables World) (ℕ × PkgLength)
  find_method garbage name s =
      let aml_size = dsdt_aml_size (table_length s.g_dsdt s.mem) in
      let aml : Bytes = λ i. s.mem (s.g_dsdt + table_header_size + i) in
      scanned s (
        find_loop aml aml_size name aml_size 0
          (record { method_start = none; pkg_length = garbage }))

  unfoldable pub append_method : List MethodPart → Action (Tables World) ⊤
  append_method [] = pure tt
  append_method (part ∷ parts) = append_dsdt b part.aml part.size >> append_method parts

  -- The name is copied into the table at its offset.
  abbrev pub put_name : ℕ → Bytes → Tables World → Tables World
  put_name offset name s = record s {
    mem =
        fix_table_checksum s.g_dsdt
          (blit s.mem (s.g_dsdt + table_header_size + offset) name 0 aml_method_name_len);
  }

  unfoldable pub rename_method : PkgLength → Name → Name → Action (Tables World) ⊤
  rename_method garbage original_name modified_name = do
    check (original_name.length == aml_method_name_len)
    check (modified_name.length == aml_method_name_len)
    (method_start, method_pkg_length) ← find_method garbage original_name.bytes
    let method_name_offset = method_start + 1 + method_pkg_length.encoded_size
    s ← gets (λ s. s)
    check (
        leb (method_name_offset + aml_method_name_len)
          (dsdt_aml_size (table_length s.g_dsdt s.mem)))
    modify (put_name method_name_offset modified_name.bytes)

  unfoldable pub hook_method : PkgLength → Name → Name → List MethodPart → Action (Tables World) ⊤
  hook_method garbage name modified_name hook_parts =
      rename_method garbage name modified_name >> append_method hook_parts
