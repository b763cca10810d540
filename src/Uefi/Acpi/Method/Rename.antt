-- ===== src/Uefi/Acpi/Method/Rename.antt =====
-- What `find_method` and `rename_method` (uefi/acpi/patch/method.c) find and change.
use switch_os.Base.{ℕ, ◌+◌, ◌≤◌, ◌<◌, ◌≡◌, ◌≢◌, refl, ap, ◌∙◌, true, leb, ◌==◌, none, some, arith}
use switch_os.Base.Action.{ok, invalid}
use switch_os.Base.Bytes.{Bytes, blit, blit-inside, blit-Outside, load32-same, Outside}
use switch_os.Uefi.Acpi.Checksum.{
  table_length, table_checksum, checksum_loop, fix_table_checksum, fix_table_checksum-Fixed,
}
use switch_os.Uefi.Acpi.PkgLength.{PkgLength}
use switch_os.Uefi.Acpi.Dsdt.{PageServices, Tables, dsdt_aml_size, table_header_size}
use switch_os.Uefi.Acpi.Method.{
  aml_method_name_len, Name, find_loop, find_method, put_name, rename_method,
}
use switch_os.Uefi.Acpi.Method.Finding.{Absent, find_loop_missing, Declared, find_loop-Declared}

module _ (b : PageServices) where
  open b use {World}

  abbrev pub dsdt_aml : Tables World → Bytes
  dsdt_aml s i = s.mem (s.g_dsdt + table_header_size + i)

  abbrev pub aml_size_of : Tables World → ℕ
  aml_size_of s = dsdt_aml_size (table_length s.g_dsdt s.mem)

  find_runs :
      (garbage r : PkgLength) (name : Bytes) (j : ℕ) (s : Tables World)
      → find_loop
          (dsdt_aml s)
          (aml_size_of s)
          name
          (aml_size_of s)
          0
          (record { method_start = none; pkg_length = garbage })
        ≡ (ok tt, record { method_start = some j; pkg_length = r })
      → find_method b garbage name s ≡ (ok (j, r), s)
  unfolding find_method
  find_runs garbage r name j s e = rw e refl

  missing_runs :
      (garbage q : PkgLength) (name : Bytes) (s : Tables World)
      → find_loop
          (dsdt_aml s)
          (aml_size_of s)
          name
          (aml_size_of s)
          0
          (record { method_start = none; pkg_length = garbage })
        ≡ (ok tt, record { method_start = none; pkg_length = q })
      → find_method b garbage name s ≡ (invalid, s)
  unfolding find_method
  missing_runs garbage q name s e = rw e refl

  -- `find_method` of a method that the DSDT does not declare fails and changes nothing.
  pub find_method_missing :
      (garbage : PkgLength) (name : Bytes) (s : Tables World)
      → Absent (dsdt_aml s) (aml_size_of s) name
      → find_method b garbage name s ≡ (invalid, s)
  find_method_missing garbage name s absent =
      let (q, run) = find_loop_missing (dsdt_aml s) (aml_size_of s) name garbage absent in
      missing_runs garbage q name s run

  -- When the DSDT declares the method once and the last method operator in it stands behind that
  -- declaration, every operator but the declaration being followed by no package length or by
  -- another name within the DSDT, and the last one by a package length, `find_method` returns the
  -- place of the method with the package length of the last operator.
  pub find_method_stale :
      (garbage q r : PkgLength) (name : Bytes) (j i : ℕ) (s : Tables World)
      → Declared (dsdt_aml s) (aml_size_of s) name j i q r
      → find_method b garbage name s ≡ (ok (j, r), s)
  find_method_stale garbage q r name j i s d =
      find_runs garbage r name j s
        (find_loop-Declared (dsdt_aml s) (aml_size_of s) name garbage j i q r d)

  -- The DSDT has the new name at `offset` of its AML, its bytes add up to zero modulo 256, and all
  -- else in memory but the checksum is as before.
  pub record Renamed (offset : ℕ) (name : Bytes) (s t : Tables World) : Type 0 where
    pub renamed :
        (x : ℕ)
        → x < aml_method_name_len
        → t.mem (s.g_dsdt + table_header_size + offset + x) ≡ name x
    pub sums_to_0 : checksum_loop (table_length s.g_dsdt t.mem) t.mem s.g_dsdt 0 ≡ 0
    pub same_length : table_length s.g_dsdt t.mem ≡ table_length s.g_dsdt s.mem
    pub elsewhere :
        (x : ℕ)
        → Outside (s.g_dsdt + table_header_size + offset) aml_method_name_len x
        → x ≢ table_checksum s.g_dsdt
        → t.mem x ≡ s.mem x

  rename_runs :
      (garbage q : PkgLength) (original modified : Name) (start offset : ℕ) (s : Tables World)
      → (original.length == aml_method_name_len) ≡ true
      → (modified.length == aml_method_name_len) ≡ true
      → find_method b garbage original.bytes s ≡ (ok (start, q), s)
      → start + 1 + q.encoded_size ≡ offset
      → leb (offset + aml_method_name_len) (aml_size_of s) ≡ true
      → rename_method b garbage original modified s ≡ (ok tt, put_name b offset modified.bytes s)
  unfolding rename_method
  rename_runs garbage q original modified start offset s e f g h k = rw (e, f, g, h, k) refl

  put_name-Renamed :
      (offset : ℕ) (name : Bytes) (s : Tables World)
      → 36 ≤ table_length s.g_dsdt s.mem
      → Renamed offset name s (put_name b offset name s)
  put_name-Renamed offset name s long =
      let at = s.g_dsdt + table_header_size + offset in
      let m = blit s.mem at name 0 aml_method_name_len in
      let beside = blit-Outside s.mem at name 0 aml_method_name_len in
      let same : table_length s.g_dsdt m ≡ table_length s.g_dsdt s.mem =
        load32-same s.mem m (s.g_dsdt + 4) (λ x p q. beside x (omega (arith, q))) in
      let fixed = fix_table_checksum-Fixed s.g_dsdt m (omega (arith, same, long)) in
      let same' =
        load32-same m (fix_table_checksum s.g_dsdt m) (s.g_dsdt + 4)
          (λ x p q. fixed.kept x (λ e. omega (arith, e, q))) in
      record {
        renamed = λ x p.
            fixed.kept (at + x) (λ e. omega (arith, e))
            ∙ blit-inside s.mem at name 0 aml_method_name_len x p
            ∙ ap name (omega arith);
        sums_to_0 = fixed.sums_to_0;
        same_length = same' ∙ same;
        elsewhere = λ x o ne. fixed.kept x ne ∙ beside x o;
      }

  -- When the method is found and its name lies in the DSDT, `rename_method` between names of four
  -- letters succeeds and writes the new name behind the operator and the package length that were
  -- found, with the checksum put right, and changes nothing else.
  pub rename_method-Renamed :
      (garbage q : PkgLength) (original modified : Name) (start : ℕ) (s : Tables World)
      → original.length ≡ aml_method_name_len
      → modified.length ≡ aml_method_name_len
      → 36 ≤ table_length s.g_dsdt s.mem
      → find_method b garbage original.bytes s ≡ (ok (start, q), s)
      → start + 1 + q.encoded_size + aml_method_name_len ≤ aml_size_of s
      → (t : Tables World) × (rename_method b garbage original modified s ≡ (ok tt, t))
        × Renamed (start + 1 + q.encoded_size) modified.bytes s t
  rename_method-Renamed garbage q original modified start s e f long g fits =
      let offset = start + 1 + q.encoded_size in
      (
        put_name b offset modified.bytes s,
        rename_runs garbage q original modified start offset s (ground arith) (ground arith) g refl
            (ground arith),
        put_name-Renamed offset modified.bytes s long,
      )
