-- ===== src/Uefi/Acpi/Dsdt/Redirect.antt =====
-- `redirect_dsdt` (uefi/acpi/patch/dsdt.c) makes the FADT point to the new table.
use switch_os.Base.{ℕ, ◌+◌, ◌%◌, ◌^◌, ◌≤◌, ◌<◌, ◌≡◌, ◌≢◌, ap, ◌∙◌, false, ◌==◌, arith}
use switch_os.Base.Action.{ok}
use switch_os.Base.Bytes.{
  Bytes, byte_of, load32, load64, store, store-inside, store-Outside, Outside,
}
use switch_os.Uefi.Acpi.Checksum.{
  table_length, table_checksum, fix_table_checksum, checksum_loop, fix_table_checksum-Fixed,
}
use switch_os.Uefi.Acpi.Dsdt.{PageServices, Tables, fadt_dsdt, fadt_x_dsdt, redirect_dsdt}
use switch_os.Uefi.Acpi.Dsdt.Append.{load32-bytes}

byte_of-high :
    (v : ℕ)
    → v < 2 ^ 32
    → (byte_of v 4 ≡ 0) × (byte_of v 5 ≡ 0) × (byte_of v 6 ≡ 0) × (byte_of v 7 ≡ 0)
unfolding byte_of
byte_of-high v p = (omega arith, omega arith, omega arith, omega arith)

load64-bytes :
    (m : Bytes) (a v : ℕ)
    → v < 2 ^ 32
    → ((x : ℕ) → x < 8 → m (a + x) ≡ byte_of v x)
    → load64 m a ≡ v
load64-bytes m a v small b =
    let low : load32 m a ≡ v =
      load32-bytes m a v small (ap m (omega arith) ∙ b 0 (omega arith)) (b 1 (omega arith))
        (b 2 (omega arith)) (b 3 (omega arith)) in
    let (h4, h5, h6, h7) = byte_of-high v small in
    let e4 = b 4 (omega arith) ∙ h4 in
    let e5 = ap m (omega arith) ∙ b 5 (omega arith) ∙ h5 in
    let e6 = ap m (omega arith) ∙ b 6 (omega arith) ∙ h6 in
    let e7 = ap m (omega arith) ∙ b 7 (omega arith) ∙ h7 in high low e4 e5 e6 e7
  where
    high :
        load32 m a ≡ v
        → m (a + 4) ≡ 0
        → m (a + 4 + 1) ≡ 0
        → m (a + 4 + 2) ≡ 0
        → m (a + 4 + 3) ≡ 0
        → load64 m a ≡ v
    high low e4 e5 e6 e7 = omega (arith, low, e4, e5, e6, e7)

module _ (fadt p : ℕ) (m : Bytes) where
  -- The FADT of memory `m'` names the table at `p` in both fields, its bytes add up to zero, and
  -- nothing but these fields and its checksum has changed.
  pub record Redirected (m' : Bytes) : Type 0 where
    pub x_dsdt : load64 m' (fadt + fadt_x_dsdt) ≡ p
    pub dsdt : load32 m' (fadt + fadt_dsdt) ≡ p
    pub fadt_sums_to_0 : checksum_loop (table_length fadt m') m' fadt 0 ≡ 0
    pub kept :
        (x : ℕ)
        → Outside (fadt + fadt_dsdt) 4 x
        → Outside (fadt + fadt_x_dsdt) 8 x
        → x ≢ table_checksum fadt
        → m' x ≡ m x

  module _ (small : p < 2 ^ 32) (long : 148 ≤ table_length fadt m) where
    pointed : Bytes
    pointed = store 4 (store 8 m (fadt + fadt_x_dsdt) p) (fadt + fadt_dsdt) (p % 2 ^ 32)

    pointed-Outside :
        (x : ℕ)
        → Outside (fadt + fadt_dsdt) 4 x
        → Outside (fadt + fadt_x_dsdt) 8 x
        → pointed x ≡ m x
    unfolding pointed
    pointed-Outside x a b =
        store-Outside 4 (store 8 m (fadt + fadt_x_dsdt) p) (fadt + fadt_dsdt) (p % 2 ^ 32) x a
        ∙ store-Outside 8 m (fadt + fadt_x_dsdt) p x b

    pointed_x_dsdt : (x : ℕ) → x < 8 → pointed (fadt + fadt_x_dsdt + x) ≡ byte_of p x
    unfolding pointed
    pointed_x_dsdt x a =
        store-Outside 4 (store 8 m (fadt + fadt_x_dsdt) p) (fadt + fadt_dsdt) (p % 2 ^ 32)
          (fadt + fadt_x_dsdt + x) (omega arith)
        ∙ store-inside 8 m (fadt + fadt_x_dsdt) p x a

    pointed_dsdt : (x : ℕ) → x < 4 → pointed (fadt + fadt_dsdt + x) ≡ byte_of p x
    unfolding pointed
    pointed_dsdt x a =
        store-inside 4 (store 8 m (fadt + fadt_x_dsdt) p) (fadt + fadt_dsdt) (p % 2 ^ 32) x a
        ∙ ap (λ v. byte_of v x) (omega arith)

    pointed_length : table_length fadt pointed ≡ table_length fadt m
    pointed_length =
        let keep = pointed-Outside in
        omega (
          arith,
          keep (fadt + 4) (omega arith) (omega arith),
          keep (fadt + 4 + 1) (omega arith) (omega arith),
          keep (fadt + 4 + 2) (omega arith) (omega arith),
          keep (fadt + 4 + 3) (omega arith) (omega arith),
        )

    pub redirected : Bytes
    redirected = fix_table_checksum fadt pointed

    pub redirected-Redirected : Redirected redirected
    unfolding redirected
    redirected-Redirected =
        let fixed = fix_table_checksum-Fixed fadt pointed (omega (arith, long, pointed_length)) in
        record {
          x_dsdt =
              load64-bytes (fix_table_checksum fadt pointed) (fadt + fadt_x_dsdt) p small
                (λ x a. fixed.kept (fadt + fadt_x_dsdt + x) (omega arith) ∙ pointed_x_dsdt x a);
          dsdt =
              load32-bytes (fix_table_checksum fadt pointed) (fadt + fadt_dsdt) p small
                (fixed.kept (fadt + fadt_dsdt) (omega arith)
                  ∙ ap pointed (omega arith)
                  ∙ pointed_dsdt 0 (omega arith))
                (fixed.kept (fadt + fadt_dsdt + 1) (omega arith) ∙ pointed_dsdt 1 (omega arith))
                (fixed.kept (fadt + fadt_dsdt + 2) (omega arith) ∙ pointed_dsdt 2 (omega arith))
                (fixed.kept (fadt + fadt_dsdt + 3) (omega arith) ∙ pointed_dsdt 3 (omega arith));
          fadt_sums_to_0 = fixed.sums_to_0;
          kept = λ x a b c. fixed.kept x c ∙ pointed-Outside x a b;
        }

module _ (b : PageServices) where
  -- A run of `redirect_dsdt` ends in that memory.
  pub redirect_dsdt_runs :
      (fadt p : ℕ) (m : Bytes) (s : Tables b.World)
      → (small : p < 2 ^ 32) (long : 148 ≤ table_length fadt m) → s.g_fadt ≡ fadt
      → s.mem ≡ m
      → fadt ≢ 0
      → redirect_dsdt b p s ≡ (ok tt, record s { mem = redirected fadt p m small long })
  unfolding redirect_dsdt redirected pointed
  redirect_dsdt_runs fadt p m s small long e f some =
      let a : (fadt == 0) ≡ false = ground arith in rw (e, a, f)
