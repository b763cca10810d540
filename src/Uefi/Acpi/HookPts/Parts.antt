-- ===== src/Uefi/Acpi/HookPts/Parts.antt =====
-- `append_method` of the two parts of a hook (uefi/acpi/patch/method.c) to an original DSDT.
use switch_os.Base.{
  ℕ, ◌+◌, ◌-◌, ◌%◌, ◌^◌, ◌<◌, ◌≡◌, ◌≢◌, refl, sym, ap, ◌∙◌, true, false, [], ◌∷◌, arith,
}
use switch_os.Base.Action.{ok}
use switch_os.Base.Bytes.{load32, load64, Outside, Apart}
use switch_os.Uefi.Acpi.Checksum.{table_length, checksum_loop}
use switch_os.Uefi.Acpi.Dsdt.{PageServices, Tables, align_up, fadt_dsdt, fadt_x_dsdt, append_dsdt}
use switch_os.Uefi.Acpi.Dsdt.Grown.{
  Placed, Grown, table_length-same, append_dsdt-Grown, append_dsdt_again-Grown,
}
use switch_os.Uefi.Acpi.Method.{MethodPart, append_method}

module _ (b : PageServices) (first second : MethodPart) (s : Tables b.World) (p p' : ℕ)
    (w w' w'' : b.World) where
  open b use {World, allocate_pages, free_pages}

  abbrev old_length : ℕ
  old_length = table_length s.g_dsdt s.mem

  -- The firmware hands out pages at `p` and then at `p'`, and takes back those at `p`. The tables
  -- that are made there lie below 4 GiB and apart from the FADT, and the second one apart from the
  -- header of the first.
  pub record Room : Type 0 where
    pub placed : Placed b first.aml first.size s p
    pub unpatched : s.g_is_dsdt_patched ≡ false
    pub asked :
        allocate_pages
          (2 ^ 32 - 1)
          (align_up ((table_length s.g_dsdt s.mem + first.size) % 2 ^ 64))
          s.world
        ≡ (true, p, w)
    pub below : p' + (table_length s.g_dsdt s.mem + first.size) + second.size < 2 ^ 32
    pub some_new : p' ≢ 0
    pub apart : Apart p' (table_length s.g_dsdt s.mem + first.size + second.size) s.g_fadt 148
    pub beside : Apart p' (table_length s.g_dsdt s.mem + first.size + second.size) p 8
    pub asked_again :
        allocate_pages
          (2 ^ 32 - 1)
          (align_up ((table_length s.g_dsdt s.mem + first.size + second.size) % 2 ^ 64))
          w
        ≡ (true, p', w')
    pub freed : free_pages p (align_up (table_length s.g_dsdt s.mem + first.size)) w' ≡ (true, w'')

  -- The table at `p'` holds the old one's content, apart from length and checksum, and then the two
  -- parts; its bytes add up to zero, and the FADT and the global point to it.
  pub record Extended (t : Tables World) : Type 0 where
    pub length_eq : table_length p' t.mem ≡ table_length s.g_dsdt s.mem + first.size + second.size
    pub sums_to_0 : checksum_loop (table_length p' t.mem) t.mem p' 0 ≡ 0
    pub old :
        (x : ℕ)
        → x < table_length s.g_dsdt s.mem
        → Outside 4 4 x
        → x ≢ 9
        → t.mem (p' + x) ≡ s.mem (s.g_dsdt + x)
    pub first_part :
        (x : ℕ) → x < first.size → t.mem (p' + table_length s.g_dsdt s.mem + x) ≡ first.aml x
    pub second_part :
        (x : ℕ)
        → x < second.size
        → t.mem (p' + table_length s.g_dsdt s.mem + first.size + x) ≡ second.aml x
    pub x_dsdt : load64 t.mem (s.g_fadt + fadt_x_dsdt) ≡ p'
    pub dsdt : load32 t.mem (s.g_fadt + fadt_dsdt) ≡ p'
    pub g_dsdt_eq : t.g_dsdt ≡ p'

  fadt_length :
      (t : Tables World)
      → Placed b first.aml first.size s p
      → Grown b first.aml first.size s p w t
      → table_length t.g_fadt t.mem ≡ table_length s.g_fadt s.mem
  fadt_length t placed g =
      ap (λ a. table_length a t.mem) g.g_fadt_eq
      ∙ table_length-same s.g_fadt s.mem t.mem (λ x l h.
        g.elsewhere x (omega (arith, placed.apart, l, h)) (omega (arith, h)) (omega (arith, h))
          (λ e. omega (arith, e, h)))

  first_length :
      (t : Tables World)
      → Grown b first.aml first.size s p w t
      → table_length t.g_dsdt t.mem ≡ old_length + first.size
  first_length t g = ap (λ a. table_length a t.mem) g.g_dsdt_eq ∙ g.length_eq

  second_runs :
      (t : Tables World)
      → Room
      → Grown b first.aml first.size s p w t
      → (t' : Tables World) × (append_dsdt b second.aml second.size t ≡ (ok tt, t'))
        × Grown b second.aml second.size t p' w'' t'
  second_runs t r g =
      let n = first_length t g in
      let at_p = g.g_dsdt_eq in
      let fadt = g.g_fadt_eq in
      let whole = fadt_length t r.placed g in
      append_dsdt_again-Grown b second.aml second.size t p' w' w''
        (record {
          header = omega (arith, n, r.placed.header);
          below = omega (arith, n, r.below);
          p_some = r.some_new;
          fadt_some = λ e. r.placed.fadt_some (omega (arith, e, fadt));
          fadt_whole = omega (arith, whole, r.placed.fadt_whole);
          apart = omega (arith, n, fadt, r.apart);
        })
        (omega (arith, n, at_p, r.beside))
        (omega (arith, at_p, fadt, r.placed.apart, r.placed.header))
        (ap (λ k. allocate_pages (2 ^ 32 - 1) (align_up ((k + second.size) % 2 ^ 64)) t.world) n
          ∙ ap
              (allocate_pages (2 ^ 32 - 1)
                (align_up ((old_length + first.size + second.size) % 2 ^ 64)))
              g.world_eq
          ∙ r.asked_again)
        (ap (λ k. free_pages t.g_dsdt (align_up k) w') n
          ∙ ap (λ a. free_pages a (align_up (old_length + first.size)) w') at_p
          ∙ r.freed)
        g.patched_eq

  extended :
      (t t' : Tables World)
      → Room
      → Grown b first.aml first.size s p w t
      → Grown b second.aml second.size t p' w'' t'
      → Extended t'
  extended t t' r g h =
      let n = first_length t g in
      let before : (x : ℕ)
          → x < old_length + first.size
          → Outside 4 4 x
          → x ≢ 9
          → t'.mem (p' + x) ≡ t.mem (p + x) =
        λ x a o ne. h.old x (omega (arith, n, a)) o ne ∙ ap (λ a. t.mem (a + x)) g.g_dsdt_eq in
      record {
        length_eq = omega (arith, h.length_eq, n);
        sums_to_0 = h.sums_to_0;
        old = λ x a o ne. before x (omega (arith, a)) o ne ∙ g.old x a o ne;
        first_part = λ x a.
            ap t'.mem (omega arith)
            ∙ before (old_length + x) (omega (arith, a)) (omega (arith, r.placed.header))
                (λ e. omega (arith, e, r.placed.header))
            ∙ ap t.mem (omega arith)
            ∙ g.appended x a;
        second_part = λ x a. ap t'.mem (omega (arith, n)) ∙ h.appended x a;
        x_dsdt = ap (λ a. load64 t'.mem (a + fadt_x_dsdt)) (sym g.g_fadt_eq) ∙ h.x_dsdt;
        dsdt = ap (λ a. load32 t'.mem (a + fadt_dsdt)) (sym g.g_fadt_eq) ∙ h.dsdt;
        g_dsdt_eq = h.g_dsdt_eq;
      }

  parts_run :
      (t t' : Tables World)
      → append_dsdt b first.aml first.size s ≡ (ok tt, t)
      → append_dsdt b second.aml second.size t ≡ (ok tt, t')
      → append_method b (first ∷ second ∷ []) s ≡ (ok tt, t')
  unfolding append_method
  parts_run t t' e f = rw (e, f) refl

  -- With room for both, `append_method` of two parts leaves a table with both behind the old one.
  pub append_method-Extended :
      Room
      → (t : Tables World) × (append_method b (first ∷ second ∷ []) s ≡ (ok tt, t)) × Extended t
  append_method-Extended r =
      let (t, e, g) = append_dsdt-Grown b first.aml first.size s p w r.placed r.asked r.unpatched in
      let (t', f, h) = second_runs t r g in (t', parts_run t t' e f, extended t t' r g h)
