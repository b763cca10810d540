-- ===== src/Uefi/Acpi/Find/Whole.antt =====
-- The whole search of `find_acpi_tables` (uefi/acpi/tables.c), and how it fails.
use switch_os.Base.{
  true, not, ltb, if◌then◌else◌, ℕ, suc, ◌+◌, ◌-◌, ◌*◌, ◌/◌, ◌^◌, ◌≤◌, ◌<◌, ◌≡◌, ◌≢◌, refl, ap, ◌∙◌,
  ◌⊎◌, inl, inr, Bool, false, ◌==◌, Bool-cases, List, [], ◌∷◌, arith,
}
use switch_os.Base.Action.{⊤, Result, ok, invalid}
use switch_os.Base.Bytes.{Bytes, load32, load64}
use switch_os.Uefi.Acpi.Checksum.{table_length}
use switch_os.Uefi.Acpi.Dsdt.{table_header_size, dsdt_aml_size}
use switch_os.Uefi.Acpi.Find.{
  SystemTable, Globals, rsdp_loop, find_rsdp, rxsdt_addr, find_rxsdt, is_xsdt, scan_loop,
  entry_size_of, scan_rxsdt, facs_addr, dsdt_addr, find_acpi_tables,
}
use switch_os.Uefi.Acpi.Find.Located.{
  once, rsdps, rsdp_loop-once, fadts, SomeEach, with_fadt, with_rsdp, scan_loop-once,
}

-- How many pointers stand behind the header of the RSDT or XSDT.
abbrev pub entry_count : Bytes → ℕ → ℕ
entry_count m rxsdt = (table_length rxsdt m - table_header_size) / entry_size_of m rxsdt

abbrev pub fadts_of : Bytes → ℕ → List ℕ
fadts_of m rxsdt = fadts rxsdt (entry_size_of m rxsdt) m (entry_count m rxsdt) 0

-- An RSDT or XSDT that holds its header and no null pointer.
pub record Scannable (m : Bytes) (rxsdt : ℕ) : Type 0 where
  pub some_rxsdt : rxsdt ≢ 0
  pub header : table_header_size ≤ table_length rxsdt m
  pub word : table_length rxsdt m < 2 ^ 32
  pub each : SomeEach rxsdt (entry_size_of m rxsdt) m (entry_count m rxsdt) 0

entry_size-cases :
    (m : Bytes) (rxsdt : ℕ) → (entry_size_of m rxsdt ≡ 8) ⊎ (entry_size_of m rxsdt ≡ 4)
entry_size-cases m rxsdt = elim (Bool-cases (is_xsdt m rxsdt)) [
  | inl e ↦ inl (rw e refl)
  | inr e ↦ inr (rw e refl)
]

count_in_table :
    (n entry_size : ℕ)
    → (entry_size ≡ 8) ⊎ (entry_size ≡ 4)
    → (n / entry_size < suc n)
      × (entry_size ≤ 8)
      × (0 + n / entry_size * entry_size ≤ n)
      × (n < 0 + n / entry_size * entry_size + entry_size)
count_in_table n entry_size (inl e) = rw e (omega arith, omega arith, omega arith, omega arith)
count_in_table n entry_size (inr e) = rw e (omega arith, omega arith, omega arith, omega arith)

scan_rxsdt_runs :
    (rxsdt : ℕ) (s : Globals) (r : Result ⊤ × Globals)
    → scan_loop rxsdt
        (entry_size_of s.mem rxsdt)
        (table_length rxsdt s.mem - table_header_size)
        (suc (table_length rxsdt s.mem - table_header_size))
        0
        s
      ≡ r
    → dsdt_aml_size (table_length rxsdt s.mem) ≡ table_length rxsdt s.mem - table_header_size
    → scan_rxsdt rxsdt s ≡ r
unfolding scan_rxsdt
scan_rxsdt_runs rxsdt s r e f = rw f e

pub scan_rxsdt-once :
    (rxsdt : ℕ) (s : Globals)
    → Scannable s.mem rxsdt
    → scan_rxsdt rxsdt s ≡ with_fadt s (once (fadts_of s.mem rxsdt) s.g_fadt)
scan_rxsdt-once rxsdt s w =
    let n = table_length rxsdt s.mem - table_header_size in
    let size = entry_size_of s.mem rxsdt in
    let (few, narrow, low, high) = count_in_table n size (entry_size-cases s.mem rxsdt) in
    scan_rxsdt_runs rxsdt s (with_fadt s (once (fadts_of s.mem rxsdt) s.g_fadt))
      (scan_loop-once rxsdt size n (n / size) (suc n) 0 s few (omega (arith, w.word)) narrow low
        high w.each)
      (omega (arith, w.header, w.word))

module _ (compare_guid : ℕ → ℕ → Bool) (guid : ℕ) (st : SystemTable) where
  -- The system table names one RSDP, the RSDP an RSDT or XSDT that can be scanned, and no search has
  -- been made.
  pub record Searchable (rsdp : ℕ) (s : Globals) : Type 0 where
    pub configured : st.configuration_table ≢ 0
    pub one_rsdp : rsdps compare_guid guid st.tables ≡ rsdp ∷ []
    pub some_rsdp : rsdp ≢ 0
    pub scannable : Scannable s.mem (rxsdt_addr s.mem rsdp)
    pub unset : (s.g_rsdp ≡ 0) × (s.g_fadt ≡ 0)

  find_rsdp_runs :
      (rsdp : ℕ) (s : Globals)
      → (st.configuration_table == 0) ≡ false
      → rsdp_loop compare_guid guid st.tables s ≡ (ok tt, record s { g_rsdp = rsdp })
      → (rsdp == 0) ≡ false
      → find_rsdp compare_guid guid st s ≡ (ok tt, record s { g_rsdp = rsdp })
  unfolding find_rsdp
  find_rsdp_runs rsdp s e f g = rw (e, f, g) refl

  find_rxsdt_runs :
      (rsdp : ℕ) (s : Globals)
      → (rxsdt_addr s.mem rsdp == 0) ≡ false
      → find_rxsdt rsdp s ≡ (ok tt, record s { g_rxsdt = rxsdt_addr s.mem rsdp })
  unfolding find_rxsdt
  find_rxsdt_runs rsdp s e = rw e refl

  find_rsdp_one :
      (rsdp : ℕ) (s : Globals)
      → Searchable rsdp s
      → find_rsdp compare_guid guid st s ≡ (ok tt, record s { g_rsdp = rsdp })
  find_rsdp_one rsdp s w =
      find_rsdp_runs rsdp s (ground (arith, w.configured))
        (rsdp_loop-once compare_guid guid st.tables s
          ∙ ap (λ ps. with_rsdp s (once ps s.g_rsdp)) w.one_rsdp
          ∙ ap (λ g. with_rsdp s (once (rsdp ∷ []) g)) w.unset.0)
        (ground (arith, w.some_rsdp))

  -- The globals when the RSDT or XSDT is to be scanned.
  abbrev pub to_scan : ℕ → Globals → Globals
  to_scan rsdp s = record s { g_rsdp = rsdp; g_rxsdt = rxsdt_addr s.mem rsdp }

  scanned_once :
      (rsdp : ℕ) (s : Globals) (ps : List ℕ)
      → Searchable rsdp s
      → fadts_of s.mem (rxsdt_addr s.mem rsdp) ≡ ps
      → scan_rxsdt (rxsdt_addr s.mem rsdp) (to_scan rsdp s) ≡ with_fadt (to_scan rsdp s) (once ps 0)
  scanned_once rsdp s ps w e =
      scan_rxsdt-once (rxsdt_addr s.mem rsdp) (to_scan rsdp s) w.scannable
      ∙ ap (λ ps. with_fadt (to_scan rsdp s) (once ps s.g_fadt)) e
      ∙ ap (λ g. with_fadt (to_scan rsdp s) (once ps g)) w.unset.1

  abbrev pub located : (rsdp fadt : ℕ) → Globals → Globals
  located rsdp fadt s = record s {
    g_rsdp = rsdp;
    g_rxsdt = rxsdt_addr s.mem rsdp;
    g_fadt = fadt;
    g_facs = facs_addr s.mem fadt;
    g_dsdt = dsdt_addr s.mem fadt;
  }

  tables_run :
      (rsdp fadt : ℕ) (s : Globals)
      → find_rsdp compare_guid guid st s ≡ (ok tt, record s { g_rsdp = rsdp })
      → find_rxsdt rsdp (record s { g_rsdp = rsdp }) ≡ (ok tt, to_scan rsdp s)
      → scan_rxsdt (rxsdt_addr s.mem rsdp) (to_scan rsdp s)
        ≡ (ok tt, record (to_scan rsdp s) { g_fadt = fadt })
      → (fadt == 0) ≡ false
      → find_acpi_tables compare_guid guid st s ≡ (ok tt, located rsdp fadt s)
  unfolding find_acpi_tables
  tables_run rsdp fadt s e f g h = rw (e, f, g, h) refl

  tables_fail :
      (rsdp : ℕ) (s t : Globals)
      → find_rsdp compare_guid guid st s ≡ (ok tt, record s { g_rsdp = rsdp })
      → find_rxsdt rsdp (record s { g_rsdp = rsdp }) ≡ (ok tt, to_scan rsdp s)
      → scan_rxsdt (rxsdt_addr s.mem rsdp) (to_scan rsdp s) ≡ (invalid, t)
      → find_acpi_tables compare_guid guid st s ≡ (invalid, t)
  unfolding find_acpi_tables
  tables_fail rsdp s t e f g = rw (e, f, g) refl

  -- A pointer of 64 bits takes precedence over one of 32 bits, unless it is 0.
  abbrev pub Prefers : (wide narrow p : ℕ) → Type 0
  Prefers wide narrow p = (wide ≢ 0 → p ≡ wide) × (wide ≡ 0 → p ≡ narrow)

  prefers : (wide narrow : ℕ) → Prefers wide narrow (if not (wide == 0) then wide else narrow)
  prefers wide narrow = (
    (λ ne. let e : (wide == 0) ≡ false = ground (arith, ne) in rw e refl),
    λ z. let e : (wide == 0) ≡ true = ground (arith, z) in rw e refl,
  )

  -- The globals point to the tables: the RSDT or XSDT is that of the RSDP, the XSDT only from
  -- revision 2 on, and the FACS and the DSDT are those of the FADT at offsets 36 and 132, and 40
  -- and 140. They are null when both fields are 0. Memory is as before.
  pub record Located (rsdp fadt : ℕ) (s t : Globals) : Type 0 where
    pub g_rsdp_eq : t.g_rsdp ≡ rsdp
    pub xsdt :
        1 < s.mem (rsdp + 15)
        → Prefers (load64 s.mem (rsdp + 24)) (load32 s.mem (rsdp + 16)) t.g_rxsdt
    pub rsdt : s.mem (rsdp + 15) ≤ 1 → t.g_rxsdt ≡ load32 s.mem (rsdp + 16)
    pub g_fadt_eq : t.g_fadt ≡ fadt
    pub facs : Prefers (load64 s.mem (fadt + 132)) (load32 s.mem (fadt + 36)) t.g_facs
    pub dsdt : Prefers (load64 s.mem (fadt + 140)) (load32 s.mem (fadt + 40)) t.g_dsdt
    pub same_mem : t.mem ≡ s.mem

  located-Located : (rsdp fadt : ℕ) (s : Globals) → Located rsdp fadt s (located rsdp fadt s)
  located-Located rsdp fadt s = record {
    g_rsdp_eq = refl;
    xsdt = λ new.
        let e : ltb 1 (s.mem (rsdp + 15)) ≡ true = ground (arith, new) in
        rw e (prefers (load64 s.mem (rsdp + 24)) (load32 s.mem (rsdp + 16)));
    rsdt = λ old. let e : ltb 1 (s.mem (rsdp + 15)) ≡ false = ground (arith, old) in rw e refl;
    g_fadt_eq = refl;
    facs = prefers (load64 s.mem (fadt + 132)) (load32 s.mem (fadt + 36));
    dsdt = prefers (load64 s.mem (fadt + 140)) (load32 s.mem (fadt + 40));
    same_mem = refl;
  }

  -- When the firmware's tables name one RSDP, its RSDT or XSDT holds its header and no null pointer
  -- and names one FADT, and no search has been made, `find_acpi_tables` succeeds with these, and
  -- with the FACS and the DSDT that the FADT names, each in the 64-bit field if that is not 0, or
  -- else in the 32-bit field, which may be 0 too.
  pub find_acpi_tables-Located :
      (rsdp fadt : ℕ) (s : Globals)
      → Searchable rsdp s
      → fadts_of s.mem (rxsdt_addr s.mem rsdp) ≡ fadt ∷ []
      → fadt ≢ 0
      → (t : Globals) × (find_acpi_tables compare_guid guid st s ≡ (ok tt, t))
        × Located rsdp fadt s t
  find_acpi_tables-Located rsdp fadt s w one some_fadt = (
    located rsdp fadt s,
    tables_run rsdp fadt s (find_rsdp_one rsdp s w)
        (find_rxsdt_runs rsdp (record s { g_rsdp = rsdp }) (ground (arith, w.scannable.some_rxsdt)))
        (scanned_once rsdp s (fadt ∷ []) w one) (ground (arith, some_fadt)),
    located-Located rsdp fadt s,
  )

  -- When the firmware's tables name one RSDP and its RSDT or XSDT holds its header, no null pointer
  -- and a second FADT, `find_acpi_tables` fails with the first one
  -- set, the DSDT not set and memory as before.
  pub find_acpi_tables_twice :
      (rsdp fadt again : ℕ) (more : List ℕ) (s : Globals)
      → Searchable rsdp s
      → fadts_of s.mem (rxsdt_addr s.mem rsdp) ≡ fadt ∷ again ∷ more
      → fadt ≢ 0
      → (t : Globals) × (find_acpi_tables compare_guid guid st s ≡ (invalid, t))
        × (t.g_fadt ≡ fadt)
        × (t.g_dsdt ≡ s.g_dsdt)
        × (t.mem ≡ s.mem)
  find_acpi_tables_twice rsdp fadt again more s w two some_fadt =
      let set : (fadt == 0) ≡ false = ground (arith, some_fadt) in
      (
        record (to_scan rsdp s) { g_fadt = fadt },
        tables_fail rsdp s (record (to_scan rsdp s) { g_fadt = fadt }) (find_rsdp_one rsdp s w)
            (find_rxsdt_runs rsdp (record s { g_rsdp = rsdp })
              (ground (arith, w.scannable.some_rxsdt)))
            (scanned_once rsdp s (fadt ∷ again ∷ more) w two ∙ rw set refl),
        refl,
        refl,
        refl,
      )
