-- ===== src/Uefi/Acpi/Dsdt/Grown.antt =====
-- `append_dsdt` (uefi/acpi/patch/dsdt.c) as a whole.
use switch_os.Base.{
  ℕ, zero, suc, ◌+◌, ◌-◌, ◌%◌, ◌^◌, ◌≤◌, ◌<◌, ◌≡◌, ◌≢◌, refl, ap, ◌∙◌, true, false, ◌==◌, arith,
}
use switch_os.Base.Action.{ok}
use switch_os.Base.Bytes.{Bytes, load32, load64, Outside, Apart}
use switch_os.Uefi.Acpi.Checksum.{table_length, table_checksum, checksum_loop}
use switch_os.Uefi.Acpi.Dsdt.{
  PageServices, Tables, align_up, table_header_size, fadt_dsdt, fadt_x_dsdt, copy_dsdt,
  alloc_patched_dsdt, free_patched_dsdt, redirect_dsdt, append_dsdt,
}
use switch_os.Uefi.Acpi.Dsdt.Append.{Copied, copy_dsdt-Copied}
use switch_os.Uefi.Acpi.Dsdt.Redirect.{
  Redirected, redirected, redirected-Redirected, redirect_dsdt_runs,
}

checksum_loop-same :
    (k : ℕ) (m m' : Bytes) (a c : ℕ)
    → ((x : ℕ) → a ≤ x → x < a + k → m' x ≡ m x)
    → checksum_loop k m' a c ≡ checksum_loop k m a c
unfolding checksum_loop
checksum_loop-same zero m m' a c same = refl
checksum_loop-same (suc k) m m' a c same =
    let here : m' a ≡ m a = same a (omega arith) (omega arith) in
    rw here (
      checksum_loop-same k m m' (a + 1) ((c + m a) % 2 ^ 8)
        (λ x l h. same x (omega arith) (omega arith)))

pub table_length-same :
    (t : ℕ) (m m' : Bytes)
    → ((x : ℕ) → t ≤ x → x < t + 8 → m' x ≡ m x)
    → table_length t m' ≡ table_length t m
table_length-same t m m' same = omega (
  arith,
  same (t + 4) (omega arith) (omega arith),
  same (t + 4 + 1) (omega arith) (omega arith),
  same (t + 4 + 2) (omega arith) (omega arith),
  same (t + 4 + 3) (omega arith) (omega arith),
)

module _ (b : PageServices) (aml : Bytes) (aml_size : ℕ) (s : Tables b.World) (p : ℕ) where
  open b use {World, allocate_pages, free_pages}

  abbrev old_length : ℕ
  old_length = table_length s.g_dsdt s.mem

  -- Both tables are whole, the new one lies below 4 GiB, and it and the FADT share no byte.
  pub record Placed : Type 0 where
    pub header : table_header_size ≤ table_length s.g_dsdt s.mem
    pub below : p + table_length s.g_dsdt s.mem + aml_size < 2 ^ 32
    pub p_some : p ≢ 0
    pub fadt_some : s.g_fadt ≢ 0
    pub fadt_whole : 148 ≤ table_length s.g_fadt s.mem
    pub apart : Apart p (table_length s.g_dsdt s.mem + aml_size) s.g_fadt 148

  -- The new table holds the old one's content, apart from length and checksum, and then the AML;
  -- its bytes add up to zero, and so do those of the FADT, which points to it. The globals follow,
  -- no other byte of memory has changed, and the firmware has come to `w`.
  pub record Grown (w : World) (s' : Tables World) : Type 0 where
    pub length_eq : table_length p s'.mem ≡ table_length s.g_dsdt s.mem + aml_size
    pub sums_to_0 : checksum_loop (table_length p s'.mem) s'.mem p 0 ≡ 0
    pub old :
        (x : ℕ)
        → x < table_length s.g_dsdt s.mem
        → Outside 4 4 x
        → x ≢ 9
        → s'.mem (p + x) ≡ s.mem (s.g_dsdt + x)
    pub appended : (x : ℕ) → x < aml_size → s'.mem (p + table_length s.g_dsdt s.mem + x) ≡ aml x
    pub x_dsdt : load64 s'.mem (s.g_fadt + fadt_x_dsdt) ≡ p
    pub dsdt : load32 s'.mem (s.g_fadt + fadt_dsdt) ≡ p
    pub fadt_sums_to_0 : checksum_loop (table_length s.g_fadt s'.mem) s'.mem s.g_fadt 0 ≡ 0
    pub elsewhere :
        (x : ℕ)
        → Outside p (table_length s.g_dsdt s.mem + aml_size) x
        → Outside (s.g_fadt + fadt_dsdt) 4 x
        → Outside (s.g_fadt + fadt_x_dsdt) 8 x
        → x ≢ table_checksum s.g_fadt
        → s'.mem x ≡ s.mem x
    pub g_fadt_eq : s'.g_fadt ≡ s.g_fadt
    pub world_eq : s'.world ≡ w
    pub g_dsdt_eq : s'.g_dsdt ≡ p
    pub patched_eq : s'.g_is_dsdt_patched ≡ true

  grown :
      (m₁ m₂ : Bytes) (w : World)
      → Placed
      → Copied p s.g_dsdt old_length aml aml_size s.mem m₁
      → Redirected s.g_fadt p m₁ m₂
      → Grown w (record s { mem = m₂; g_dsdt = p; g_is_dsdt_patched = true; world = w })
  grown m₁ m₂ w placed c r =
      let beside : (x : ℕ) → Outside s.g_fadt 148 x → m₂ x ≡ m₁ x =
        λ x o. r.kept x (omega (arith, o)) (omega (arith, o)) (λ e. omega (arith, o, e)) in
      let same : (x : ℕ) → p ≤ x → x < p + (old_length + aml_size) → m₂ x ≡ m₁ x =
        λ x l h. beside x (omega (arith, placed.apart, l, h)) in
      let whole =
        table_length-same p m₁ m₂ (λ x l h. same x l (omega (arith, placed.header, h)))
        ∙ c.length_eq in
      record {
        length_eq = whole;
        sums_to_0 =
            ap (λ n. checksum_loop n m₂ p 0) whole
            ∙ checksum_loop-same (old_length + aml_size) m₁ m₂ p 0 same
            ∙ c.sums_to_0;
        old = λ x a out ne. same (p + x) (omega arith) (omega (arith, a)) ∙ c.old x a out ne;
        appended =
            λ x a. same (p + old_length + x) (omega arith) (omega (arith, a)) ∙ c.appended x a;
        x_dsdt = r.x_dsdt;
        dsdt = r.dsdt;
        fadt_sums_to_0 = r.fadt_sums_to_0;
        elsewhere = λ x out d f e. r.kept x d f e ∙ c.elsewhere x out;
        g_fadt_eq = refl;
        world_eq = refl;
        g_dsdt_eq = refl;
        patched_eq = refl;
      }

  module _ (m₁ m₂ : Bytes) (w w' : World) where
    abbrev Asked : Type 0
    Asked =
        allocate_pages (2 ^ 32 - 1) (align_up ((old_length + aml_size) % 2 ^ 64)) s.world
        ≡ (true, p, w)

    fresh_runs :
        Asked
        → (p == 0) ≡ false
        → copy_dsdt p s.g_dsdt old_length aml aml_size s.mem ≡ m₁
        → redirect_dsdt b p (record s { mem = m₁; world = w })
          ≡ (ok tt, record s { mem = m₂; world = w })
        → s.g_is_dsdt_patched ≡ false
        → append_dsdt b aml aml_size s
          ≡ (ok tt, record s { mem = m₂; g_dsdt = p; g_is_dsdt_patched = true; world = w })
    unfolding append_dsdt alloc_patched_dsdt
    fresh_runs e some copy redirect unpatched = rw (e, some, copy, redirect, unpatched)

    again_runs :
        Asked
        → (p == 0) ≡ false
        → copy_dsdt p s.g_dsdt old_length aml aml_size s.mem ≡ m₁
        → redirect_dsdt b p (record s { mem = m₁; world = w })
          ≡ (ok tt, record s { mem = m₂; world = w })
        → s.g_is_dsdt_patched ≡ true
        → free_pages s.g_dsdt (align_up (table_length s.g_dsdt m₂)) w ≡ (true, w')
        → append_dsdt b aml aml_size s
          ≡ (ok tt, record s { mem = m₂; g_dsdt = p; g_is_dsdt_patched = true; world = w' })
    unfolding append_dsdt alloc_patched_dsdt free_patched_dsdt
    again_runs e some copy redirect patched freed = rw (e, some, copy, redirect, patched, freed)

  -- The run up to the question whether there is an earlier patched table.
  prepared :
      (w : World)
      → Placed
      → (m₁ : Bytes) × (m₂ : Bytes) × (copy_dsdt p s.g_dsdt old_length aml aml_size s.mem ≡ m₁)
        × (redirect_dsdt b p (record s { mem = m₁; world = w })
            ≡ (ok tt, record s { mem = m₂; world = w }))
        × Copied p s.g_dsdt old_length aml aml_size s.mem m₁
        × Redirected s.g_fadt p m₁ m₂
  prepared w placed =
      let m₁ = copy_dsdt p s.g_dsdt old_length aml aml_size s.mem in
      let c =
        copy_dsdt-Copied p s.g_dsdt old_length aml aml_size s.mem placed.header placed.below in
      let long : 148 ≤ table_length s.g_fadt m₁ = omega (
        arith,
        placed.fadt_whole,
        table_length-same s.g_fadt s.mem m₁
            (λ x l h. c.elsewhere x (omega (arith, placed.apart, l, h))),
      ) in
      let small : p < 2 ^ 32 = omega (arith, placed.below) in
      (
        m₁,
        redirected s.g_fadt p m₁ small long,
        refl,
        redirect_dsdt_runs b s.g_fadt p m₁ (record s { mem = m₁; world = w }) small long refl refl
            placed.fadt_some,
        c,
        redirected-Redirected s.g_fadt p m₁ small long,
      )

  -- When the firmware hands out pages at `p` that suit, appending to the original DSDT succeeds and
  -- the table has grown by the AML.
  pub append_dsdt-Grown :
      (w : World)
      → Placed
      → allocate_pages
          (2 ^ 32 - 1)
          (align_up ((table_length s.g_dsdt s.mem + aml_size) % 2 ^ 64))
          s.world
        ≡ (true, p, w)
      → s.g_is_dsdt_patched ≡ false
      → (s' : Tables World) × (append_dsdt b aml aml_size s ≡ (ok tt, s')) × Grown w s'
  append_dsdt-Grown w placed e unpatched =
      let (m₁, m₂, copy, redirect, c, r) = prepared w placed in
      (
        record s { mem = m₂; g_dsdt = p; g_is_dsdt_patched = true; world = w },
        fresh_runs m₁ m₂ w w e (ground (arith, placed.p_some)) copy redirect unpatched,
        grown m₁ m₂ w placed c r,
      )

  -- When the DSDT is a patched one, whose header lies apart from the new table and the FADT,
  -- appending asks the firmware to take back as many pages at the old table as an allocation of the
  -- old length asks for, and when it does, succeeds with the table grown by the AML.
  pub append_dsdt_again-Grown :
      (w w' : World)
      → Placed
      → Apart p (table_length s.g_dsdt s.mem + aml_size) s.g_dsdt 8
      → Apart s.g_fadt 148 s.g_dsdt 8
      → allocate_pages
          (2 ^ 32 - 1)
          (align_up ((table_length s.g_dsdt s.mem + aml_size) % 2 ^ 64))
          s.world
        ≡ (true, p, w)
      → free_pages s.g_dsdt (align_up (table_length s.g_dsdt s.mem)) w ≡ (true, w')
      → s.g_is_dsdt_patched ≡ true
      → (s' : Tables World) × (append_dsdt b aml aml_size s ≡ (ok tt, s')) × Grown w' s'
  append_dsdt_again-Grown w w' placed apart beside e freed patched =
      let (m₁, m₂, copy, redirect, c, r) = prepared w placed in
      let kept : table_length s.g_dsdt m₂ ≡ table_length s.g_dsdt s.mem =
        table_length-same s.g_dsdt s.mem m₂ (λ x l h.
          r.kept x (omega (arith, beside, l, h)) (omega (arith, beside, l, h))
            (λ e. omega (arith, beside, l, h, e))
          ∙ c.elsewhere x (omega (arith, apart, l, h))) in
      (
        record s { mem = m₂; g_dsdt = p; g_is_dsdt_patched = true; world = w' },
        again_runs m₁ m₂ w w' e (ground (arith, placed.p_some)) copy redirect patched
            (ap (λ n. free_pages s.g_dsdt (align_up n) w) kept ∙ freed),
        grown m₁ m₂ w' placed c r,
      )
