-- ===== src/Uefi/Acpi/HookPts/Created.antt =====
-- What `create_or_hook_pts` (uefi/acpi/hook_pts.c) makes of a DSDT without a `_PTS` method.
use switch_os.Base.{
  ℕ, ◌+◌, ◌-◌, ◌%◌, ◌^◌, ◌≤◌, ◌<◌, ◌≡◌, refl, ◌∙◌, true, false, leb, ◌==◌, [], ◌∷◌, arith,
}
use switch_os.Base.Action.{⊤, Result, ok, invalid}
use switch_os.Base.Bytes.{Bytes, byte_of, store, store-inside, store-Outside, Outside}
use switch_os.Uefi.Acpi.PkgLength.{PkgLength}
use switch_os.Uefi.Acpi.Dsdt.{PageServices, Tables}
use switch_os.Uefi.Acpi.Checksum.{table_length}
use switch_os.Uefi.Acpi.Method.{MethodPart, find_method, append_method}
use switch_os.Uefi.Acpi.Method.Finding.{Absent}
use switch_os.Uefi.Acpi.Method.Rename.{dsdt_aml, aml_size_of, find_method_missing}
use switch_os.Uefi.Acpi.HookPts.{
  Generated, Hooks, unset_offset, pts_name, call_spts_byte_count, offset_loop, zero_ops,
  pts_relocate_facs_addr, create_pts, create_or_hook_pts,
}
use switch_os.Uefi.Acpi.HookPts.Parts.{Room, Extended, append_method-Extended}

zero_ops-inside : (m : Bytes) (at n x : ℕ) → x < n → zero_ops m at n (at + x) ≡ 0
unfolding zero_ops
zero_ops-inside m at n x p = ground arith

zero_ops-Outside : (m : Bytes) (at n x : ℕ) → Outside at n x → zero_ops m at n x ≡ m x
unfolding zero_ops
zero_ops-Outside m at n x p = ground arith

module _ (b : PageServices) (g : Generated) where
  open b use {World}

  -- The address in the `FACS` region stands at `o`, wholly before the call of `SPTS`.
  pub record Relocatable (o : ℕ) : Type 0 where
    pub offset : offset_loop g g.offset_table unset_offset ≡ o
    pub inside : o + 4 + call_spts_byte_count ≤ g.pts_facs_size
    pub word : g.pts_facs_size < 2 ^ 32

  abbrev pub relocated : ℕ → Hooks World → Hooks World
  relocated o s = record s { pts_facs = store 4 s.pts_facs o (s.g_facs % 2 ^ 32) }

  relocate_runs :
      (o : ℕ) (s : Hooks World)
      → offset_loop g g.offset_table unset_offset ≡ o
      → (o == unset_offset) ≡ false
      → leb ((o + 4) % 2 ^ 64) g.pts_facs_size ≡ true
      → leb (o + 4) g.pts_facs_size ≡ true
      → pts_relocate_facs_addr b g s ≡ (ok tt, relocated o s)
  unfolding pts_relocate_facs_addr
  relocate_runs o s e f h k = rw (e, f, h, k) refl

  relocate-relocated :
      (o : ℕ) (s : Hooks World)
      → Relocatable o
      → pts_relocate_facs_addr b g s ≡ (ok tt, relocated o s)
  relocate-relocated o s r =
      let inside = r.inside in
      let word = r.word in
      let exact : (o + 4) % 2 ^ 64 ≡ o + 4 = omega (arith, inside, word) in
      relocate_runs o s r.offset (ground (arith, inside, word)) (ground (arith, exact, inside))
        (ground (arith, inside))

  -- The hook with the address of the FACS and without the call.
  abbrev pub standalone : ℕ → Hooks World → Bytes
  standalone o s =
      zero_ops (store 4 s.pts_facs o (s.g_facs % 2 ^ 32)) (g.pts_facs_size - call_spts_byte_count)
        call_spts_byte_count

  abbrev pub first_part : MethodPart
  first_part = record { aml = g.pts; size = g.pts_size }

  abbrev pub standalone_part : ℕ → Hooks World → MethodPart
  standalone_part o s = record { aml = standalone o s; size = g.pts_facs_size }

  create_runs :
      (at : ℕ) (s : Hooks World) (t : Tables World)
      → (g.pts_facs_size + 2 ^ 64 - call_spts_byte_count) % 2 ^ 64 ≡ at
      → leb (at + call_spts_byte_count) g.pts_facs_size ≡ true
      → append_method b
          (first_part
            ∷ record { aml = zero_ops s.pts_facs at call_spts_byte_count; size = g.pts_facs_size }
            ∷ [])
          s.tables
        ≡ (ok tt, t)
      → create_pts b g s
        ≡ (ok tt, record s { tables = t; pts_facs = zero_ops s.pts_facs at call_spts_byte_count })
  unfolding create_pts
  create_runs at s t e f h = rw (e, f, h) refl

  missing_runs :
      (garbage garbage' : PkgLength) (s s' : Hooks World) (r : Result ⊤ × Hooks World)
      → pts_relocate_facs_addr b g s ≡ (ok tt, s')
      → find_method b garbage pts_name.bytes s'.tables ≡ (invalid, s'.tables)
      → create_pts b g s' ≡ r
      → create_or_hook_pts b g garbage garbage' s ≡ r
  unfolding create_or_hook_pts
  missing_runs garbage garbage' s s' r e f h = rw (e, f) h

  hook_bytes :
      (o : ℕ) (s : Hooks World)
      → Relocatable o
      → ((k : ℕ) → k < 4 → standalone o s (o + k) ≡ byte_of (s.g_facs % 2 ^ 32) k)
        × ((k : ℕ)
            → k < call_spts_byte_count
            → standalone o s (g.pts_facs_size - call_spts_byte_count + k) ≡ 0)
        × ((k : ℕ)
            → k + call_spts_byte_count < g.pts_facs_size
            → Outside o 4 k
            → standalone o s k ≡ s.pts_facs k)
  hook_bytes o s r =
      let v = s.g_facs % 2 ^ 32 in
      let n = call_spts_byte_count in
      let at = g.pts_facs_size - n in
      let m = store 4 s.pts_facs o v in
      (
        (λ k p.
            zero_ops-Outside m at n (o + k) (omega (arith, r.inside, p))
            ∙ store-inside 4 s.pts_facs o v k p),
        (λ k p. zero_ops-inside m at n k p),
        (λ k p out.
            zero_ops-Outside m at n k (omega (arith, p)) ∙ store-Outside 4 s.pts_facs o v k out),
      )

  module _ (o : ℕ) (s : Hooks World) (p p' : ℕ) (w w' w'' : World) where
    -- The table at `p'` has the old content and then a `_PTS` method of its own: the generated code
    -- with the address of the FACS at its place, and zeros in place of the call of `SPTS`.
    pub record Created (t : Hooks World) : Type 0 where
      pub extended : Extended b first_part (standalone_part o s) s.tables p p' w w' w'' t.tables
      pub facs_addr :
          (k : ℕ)
          → k < 4
          → t.tables.mem (p' + table_length s.tables.g_dsdt s.tables.mem + g.pts_size + (o + k))
            ≡ byte_of (s.g_facs % 2 ^ 32) k
      pub no_call :
          (k : ℕ)
          → k < call_spts_byte_count
          → t.tables.mem (
              p'
              + table_length s.tables.g_dsdt s.tables.mem
              + g.pts_size
              + (g.pts_facs_size - call_spts_byte_count + k))
            ≡ 0

    created :
        (t : Tables World)
        → Relocatable o
        → Extended b first_part (standalone_part o s) s.tables p p' w w' w'' t
        → Created (record s { tables = t; pts_facs = standalone o s })
    created t r x =
        let (facs, call, other) = hook_bytes o s r in
        record {
          extended = x;
          facs_addr = λ k l. x.second_part (o + k) (omega (arith, r.inside, l)) ∙ facs k l;
          no_call = λ k l.
              x.second_part (g.pts_facs_size - call_spts_byte_count + k)
                (omega (arith, r.inside, l))
              ∙ call k l;
        }

    -- When the DSDT declares no `_PTS` method, every method operator in it being followed by no
    -- package length or by another name within it, the offset table names the place of the address
    -- in the hook, the DSDT has not been patched, and the firmware has room for the two tables that
    -- are made, `create_or_hook_pts` succeeds, and the DSDT has a `_PTS` method with the address of the FACS
    -- at its place and without the call of the method that it would otherwise replace.
    pub create_or_hook_pts-Created :
        (garbage garbage' : PkgLength)
        → Relocatable o
        → Absent (dsdt_aml b s.tables) (aml_size_of b s.tables) pts_name.bytes
        → Room b first_part (standalone_part o s) s.tables p p' w w' w''
        → (t : Hooks World) × (create_or_hook_pts b g garbage garbage' s ≡ (ok tt, t)) × Created t
    create_or_hook_pts-Created garbage garbage' r missing room =
        let at : ℕ = g.pts_facs_size - call_spts_byte_count in
        let (t, e, x) =
          append_method-Extended b first_part (standalone_part o s) s.tables p p' w w' w'' room in
        (
          record s { tables = t; pts_facs = standalone o s },
          missing_runs garbage garbage' s (relocated o s)
              (ok tt, record s { tables = t; pts_facs = standalone o s }) (relocate-relocated o s r)
              (find_method_missing b garbage pts_name.bytes s.tables missing)
              (create_runs at (relocated o s) t (omega (arith, r.inside, r.word))
                (ground (arith, r.inside)) e),
          created t r x,
        )
