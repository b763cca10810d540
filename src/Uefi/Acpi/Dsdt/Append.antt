-- ===== src/Uefi/Acpi/Dsdt/Append.antt =====
-- What `append_dsdt` (uefi/acpi/patch/dsdt.c) leaves in memory.
use switch_os.Base.{ℕ, ◌+◌, ◌%◌, ◌^◌, ◌≤◌, ◌<◌, ◌≡◌, ◌≢◌, refl, sym, ap, ◌∙◌, arith}
use switch_os.Base.Bytes.{Bytes, byte_of, load32, blit, blit-Outside, store, store-inside, Outside}
use switch_os.Uefi.Acpi.Checksum.{
  table_length, table_checksum, fix_table_checksum, checksum_loop, fix_table_checksum-Fixed,
}
use switch_os.Uefi.Acpi.Dsdt.{dsdt_aml_size, copy_dsdt, table_header_size}

pub load32-bytes :
    (m : Bytes) (a v : ℕ)
    → v < 2 ^ 32
    → m a ≡ byte_of v 0
    → m (a + 1) ≡ byte_of v 1
    → m (a + 2) ≡ byte_of v 2
    → m (a + 3) ≡ byte_of v 3
    → load32 m a ≡ v
unfolding byte_of
load32-bytes m a v small b0 b1 b2 b3 = omega (arith, b0, b1, b2, b3)

module _ (p dsdt length : ℕ) (aml : Bytes) (aml_size : ℕ) (m : Bytes) where
  -- The table at `p` in memory `m'` has the content of the old one, apart from its length and its
  -- checksum, with the AML behind it; its bytes add up to zero; and nothing else has changed.
  pub record Copied (m' : Bytes) : Type 0 where
    pub length_eq : table_length p m' ≡ length + aml_size
    pub sums_to_0 : checksum_loop (length + aml_size) m' p 0 ≡ 0
    pub old : (x : ℕ) → x < length → Outside 4 4 x → x ≢ 9 → m' (p + x) ≡ m (dsdt + x)
    pub appended : (x : ℕ) → x < aml_size → m' (p + length + x) ≡ aml x
    pub elsewhere : (x : ℕ) → Outside p (length + aml_size) x → m' x ≡ m x

  module _ (header : table_header_size ≤ length) (room : p + length + aml_size < 2 ^ 32) where
    resized : Bytes
    resized = store 4 (blit m p m dsdt length) (p + 4) ((length + aml_size) % 2 ^ 32)

    filled : Bytes
    filled = blit resized (p + length) aml 0 aml_size

    filled-old : (x : ℕ) → x < length → Outside 4 4 x → filled (p + x) ≡ m (dsdt + x)
    unfolding filled resized blit store
    filled-old x a out = ground arith

    filled-length : (x : ℕ) → x < 4 → filled (p + 4 + x) ≡ byte_of (length + aml_size) x
    unfolding filled resized
    filled-length x a =
        let small : (length + aml_size) % 2 ^ 32 ≡ length + aml_size = omega arith in
        blit-Outside resized (p + length) aml 0 aml_size (p + 4 + x) (omega arith)
        ∙ store-inside 4 (blit m p m dsdt length) (p + 4) ((length + aml_size) % 2 ^ 32) x a
        ∙ ap (λ v. byte_of v x) small

    filled-appended : (x : ℕ) → x < aml_size → filled (p + length + x) ≡ aml x
    unfolding filled resized blit store
    filled-appended x a = ground arith

    filled-Outside : (x : ℕ) → Outside p (length + aml_size) x → filled x ≡ m x
    unfolding filled resized blit store
    filled-Outside x out = ground arith

    -- The length's bytes in a memory that agrees with the filled table but for the checksum.
    length_of :
        (m' : Bytes)
        → ((x : ℕ) → x ≢ table_checksum p → m' x ≡ filled x)
        → table_length p m' ≡ length + aml_size
    length_of m' same =
        load32-bytes m' (p + 4) (length + aml_size) (omega arith)
          (same (p + 4) (omega arith) ∙ ap filled (omega arith) ∙ filled-length 0 (omega arith))
          (same (p + 4 + 1) (omega arith) ∙ filled-length 1 (omega arith))
          (same (p + 4 + 2) (omega arith) ∙ filled-length 2 (omega arith))
          (same (p + 4 + 3) (omega arith) ∙ filled-length 3 (omega arith))

    copy_dsdt-filled : copy_dsdt p dsdt length aml aml_size m ≡ fix_table_checksum p filled
    unfolding copy_dsdt filled resized
    copy_dsdt-filled =
        let at : (p + table_header_size + dsdt_aml_size length) % 2 ^ 64 ≡ p + length =
          omega arith in
        rw at

    pub copy_dsdt-Copied : Copied (copy_dsdt p dsdt length aml aml_size m)
    copy_dsdt-Copied =
        let long : table_length p filled ≡ length + aml_size = length_of filled (λ x ne. refl) in
        let fixed = fix_table_checksum-Fixed p filled (omega (arith, long)) in
        let whole = length_of (fix_table_checksum p filled) fixed.kept in
        rw (copy_dsdt-filled) (record {
          length_eq = whole;
          sums_to_0 =
              ap (λ n. checksum_loop n (fix_table_checksum p filled) p 0) (sym whole)
              ∙ fixed.sums_to_0;
          old = λ x a out ne. fixed.kept (p + x) (omega (arith, ne)) ∙ filled-old x a out;
          appended = λ x a. fixed.kept (p + length + x) (omega arith) ∙ filled-appended x a;
          elsewhere = λ x out. fixed.kept x (omega (arith, out)) ∙ filled-Outside x out;
        })
