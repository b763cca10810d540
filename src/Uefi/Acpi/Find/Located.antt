-- ===== src/Uefi/Acpi/Find/Located.antt =====
-- Which tables `find_acpi_tables` (uefi/acpi/tables.c) finds.
use switch_os.Base.{
  ℕ, zero, suc, ◌+◌, ◌*◌, ◌%◌, ◌^◌, ◌≤◌, ◌<◌, ◌≡◌, ◌≢◌, refl, ◌∙◌, inl, inr, Bool, true, false, leb,
  ◌==◌, Bool-cases, List, [], ◌∷◌, if◌then◌else◌, arith,
}
use switch_os.Base.Action.{⊤, Action, Result, ok, invalid}
use switch_os.Base.Bytes.{Bytes}
use switch_os.Uefi.Acpi.Dsdt.{table_header_size}
use switch_os.Uefi.Acpi.Find.{
  ConfigTable, Globals, rsdp_loop, load_entry, is_fadt, scan_round, scan_loop,
}

-- A global that is set to each of the pointers, and may be set only while it is null.
abbrev pub once : List ℕ → Action ℕ ⊤
once [] g = (ok tt, g)
once (p ∷ ps) g = if g == 0 then once ps p else (invalid, g)

abbrev pub with_rsdp : Globals → Result ⊤ × ℕ → Result ⊤ × Globals
with_rsdp s (r, g) = (r, record s { g_rsdp = g })

abbrev pub with_fadt : Globals → Result ⊤ × ℕ → Result ⊤ × Globals
with_fadt s (r, g) = (r, record s { g_fadt = g })

module _ (compare_guid : ℕ → ℕ → Bool) (guid : ℕ) where
  -- The tables of the entries with the GUID.
  abbrev pub rsdps : List ConfigTable → List ℕ
  rsdps [] = []
  rsdps (table ∷ tables) =
      let rest = rsdps tables in
      if compare_guid table.vendor_guid guid then table.vendor_table ∷ rest else rest

  pub rsdp_loop-once :
      (tables : List ConfigTable) (s : Globals)
      → rsdp_loop compare_guid guid tables s ≡ with_rsdp s (once (rsdps tables) s.g_rsdp)
  unfolding rsdp_loop
  rsdp_loop-once [] s = refl
  rsdp_loop-once (table ∷ tables) s = elim (Bool-cases (compare_guid table.vendor_guid guid)) [
    | inl e ↦ elim (Bool-cases (s.g_rsdp == 0)) [
      | inl f ↦ rw (e, f) (rsdp_loop-once tables (record s { g_rsdp = table.vendor_table }))
      | inr f ↦ rw (e, f) refl
    ]
    | inr e ↦ rw e (rsdp_loop-once tables s)
  ]

module _ (rxsdt entry_size : ℕ) (m : Bytes) where
  abbrev pub entry_at : ℕ → ℕ
  entry_at i = load_entry entry_size m (rxsdt + table_header_size + i)

  -- The tables with the signature of the FADT among `k` entries from offset `i` on.
  abbrev pub fadts : ℕ → ℕ → List ℕ
  fadts zero i = []
  fadts (suc k) i =
      let rest = fadts k (i + entry_size) in
      if is_fadt m (entry_at i) then entry_at i ∷ rest else rest

  -- None of the entries is null.
  abbrev pub SomeEach : ℕ → ℕ → Type 0
  SomeEach zero i = ⊤
  SomeEach (suc k) i = (entry_at i ≢ 0) × SomeEach k (i + entry_size)

module _ (rxsdt entry_size entries_bytes : ℕ) where
  round_ends :
      (fuel i : ℕ) (s : Globals)
      → leb ((i + entry_size) % 2 ^ 64) entries_bytes ≡ false
      → scan_loop rxsdt entry_size entries_bytes (suc fuel) i s ≡ (ok tt, s)
  unfolding scan_loop
  round_ends fuel i s e = rw e refl

  round_passes :
      (fuel i : ℕ) (s : Globals)
      → leb ((i + entry_size) % 2 ^ 64) entries_bytes ≡ true
      → (i + entry_size) % 2 ^ 64 ≡ i + entry_size
      → (entry_at rxsdt entry_size s.mem i == 0) ≡ false
      → is_fadt s.mem (entry_at rxsdt entry_size s.mem i) ≡ false
      → scan_loop rxsdt entry_size entries_bytes (suc fuel) i s
        ≡ scan_loop rxsdt entry_size entries_bytes fuel (i + entry_size) s
  unfolding scan_loop scan_round
  round_passes fuel i s e f g h = rw (e, f, g, h) refl

  round_sets :
      (fuel i : ℕ) (s : Globals)
      → leb ((i + entry_size) % 2 ^ 64) entries_bytes ≡ true
      → (i + entry_size) % 2 ^ 64 ≡ i + entry_size
      → (entry_at rxsdt entry_size s.mem i == 0) ≡ false
      → is_fadt s.mem (entry_at rxsdt entry_size s.mem i) ≡ true
      → (s.g_fadt == 0) ≡ true
      → scan_loop rxsdt entry_size entries_bytes (suc fuel) i s
        ≡ scan_loop rxsdt entry_size entries_bytes fuel
            (i + entry_size)
            (record s { g_fadt = entry_at rxsdt entry_size s.mem i })
  unfolding scan_loop scan_round
  round_sets fuel i s e f g h k = rw (e, f, g, h, k) refl

  round_fails :
      (fuel i : ℕ) (s : Globals)
      → leb ((i + entry_size) % 2 ^ 64) entries_bytes ≡ true
      → (entry_at rxsdt entry_size s.mem i == 0) ≡ false
      → is_fadt s.mem (entry_at rxsdt entry_size s.mem i) ≡ true
      → (s.g_fadt == 0) ≡ false
      → scan_loop rxsdt entry_size entries_bytes (suc fuel) i s ≡ (invalid, s)
  unfolding scan_loop scan_round
  round_fails fuel i s e g h k = rw (e, g, h, k) refl

  pub scan_loop-once :
      (k fuel i : ℕ) (s : Globals)
      → k < fuel
      → entries_bytes < 2 ^ 63
      → entry_size ≤ 8
      → i + k * entry_size ≤ entries_bytes
      → entries_bytes < i + k * entry_size + entry_size
      → SomeEach rxsdt entry_size s.mem k i
      → scan_loop rxsdt entry_size entries_bytes fuel i s
        ≡ with_fadt s (once (fadts rxsdt entry_size s.mem k i) s.g_fadt)
  scan_loop-once k zero i s lt small size low high each = absurd (omega arith)
  scan_loop-once zero (suc fuel) i s lt small size low high each =
      round_ends fuel i s (ground (arith, low, high))
  scan_loop-once (suc k) (suc fuel) i s lt small size low high each =
      let m = s.mem in
      let step : i + suc k * entry_size ≡ i + entry_size + k * entry_size = omega arith in
      let inside : i + entry_size ≤ entries_bytes = omega (arith, step, low) in
      let exact : (i + entry_size) % 2 ^ 64 ≡ i + entry_size = omega (arith, inside, small) in
      let more : leb ((i + entry_size) % 2 ^ 64) entries_bytes ≡ true =
        ground (arith, exact, inside) in
      let full : (entry_at rxsdt entry_size m i == 0) ≡ false = ground (arith, each.0) in
      let later = λ (t : Globals) (a : SomeEach rxsdt entry_size t.mem k (i + entry_size)).
        scan_loop-once k fuel (i + entry_size) t (omega arith) small size (omega (arith, step, low))
          (omega (arith, step, high)) a in
      elim (Bool-cases (is_fadt m (entry_at rxsdt entry_size m i))) [
        | inr e ↦ rw e (round_passes fuel i s more exact full e ∙ later s each.1)
        | inl e ↦ elim (Bool-cases (s.g_fadt == 0)) [
          | inl f ↦
              rw (e, f)
                (round_sets fuel i s more exact full e f
                  ∙ later (record s { g_fadt = entry_at rxsdt entry_size m i }) each.1)
          | inr f ↦ rw (e, f) (round_fails fuel i s more full e f)
        ]
      ]
