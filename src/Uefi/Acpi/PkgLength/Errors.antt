-- ===== src/Uefi/Acpi/PkgLength/Errors.antt =====
-- The lengths that `build_pkg_length` refuses, and the buffers that `parse_pkg_length` overruns.
use switch_os.Base.{
  ℕ, suc, ◌+◌, ◌/◌, ◌%◌, ◌^◌, ◌≤◌, ◌<◌, ◌≡◌, refl, ◌∙◌, ◌⊎◌, inl, inr, true, false, ltb, leb, ◌==◌,
  Bool-cases, arith,
}
use switch_os.Base.Action.{invalid, fault}
use switch_os.Uefi.Acpi.PkgLength.{
  PkgLength, set_aml, aml_byte, build_pkg_length, parse_loop, parse_pkg_length, max_pkg_length_size,
}
use switch_os.Uefi.Acpi.PkgLength.Encoding.{round_runs}
use switch_os.Uefi.Acpi.PkgLength.Building.{build_round, build_full}

-- Lengths of 2 ^ 28 and more are refused; the one that passes the first check fails in the loop.
pub build_pkg_length_large :
    (n : ℕ) (p : PkgLength) → max_pkg_length_size ≤ n → (build_pkg_length n p).0 ≡ invalid
unfolding build_pkg_length
build_pkg_length_large n p large = elim (Bool-cases (leb n max_pkg_length_size)) [
  | inr a ↦ rw a
  | inl a ↦
      let e : n ≡ 2 ^ 28 = ground arith in
      let loop =
        build_round 4 (2 ^ 24) 1 (set_aml 0 0 p) (omega arith) (omega arith)
        ∙ build_round 3 (2 ^ 16) 2 _ (omega arith) (omega arith)
        ∙ build_round 2 (2 ^ 8) 3 _ (omega arith) (omega arith)
        ∙ build_full 1 1 _ (omega arith) in
      rw (e, loop)
]

module _ (aml : ℕ → ℕ) (aml_size : ℕ) where
  past_end :
      (k i size : ℕ) (p : PkgLength)
      → aml_size ≡ i + 1
      → parse_loop aml aml_size (suc k) i size p ≡ (fault, p)
  unfolding parse_loop aml_byte
  past_end k i size p e = let here : ltb (i + 1) aml_size ≡ false = ground arith in rw here

  overrun_runs :
      (k : ℕ) (p : PkgLength)
      → leb (aml 0) 63 ≡ false
      → (aml 0 / 2 ^ 4 % 2 ^ 2 == 0) ≡ true
      → aml 0 / 2 ^ 6 % 2 ^ 2 ≡ k
      → leb k 3 ≡ true
      → k ≡ aml_size
      → 0 < k
      → parse_loop aml aml_size k 0 (aml 0 % 2 ^ 4) p ≡ (fault, p)
      → (parse_pkg_length aml aml_size p).0 ≡ fault
  unfolding parse_pkg_length
  overrun_runs k p long reserved count few whole some loop =
      let a : ltb 0 aml_size ≡ true = ground arith in
      let b : leb k aml_size ≡ true = ground arith in rw (a, long, reserved, count, few, b, loop)

  -- A lead byte of a longer length that announces as many bytes as the whole buffer has passes the
  -- checks and makes `parse_pkg_length` read past the buffer's end.
  pub parse_pkg_length_overrun :
      (p : PkgLength)
      → 63 < aml 0
      → aml 0 / 2 ^ 4 % 2 ^ 2 ≡ 0
      → aml 0 / 2 ^ 6 % 2 ^ 2 ≡ aml_size
      → 0 < aml_size
      → (parse_pkg_length aml aml_size p).0 ≡ fault
  parse_pkg_length_overrun p long reserved count some =
      elim (which aml_size (omega (arith, count, some))) [
        | inl e ↦
            let at : 1 ≡ aml_size = omega (arith, e, some) in
            run 1 e refl at (past_end 0 0 _ p (omega (arith, at)))
        | inr (inl e) ↦
            let at : 2 ≡ aml_size = omega (arith, e, some) in
            run 2 e refl at (
              round_runs aml aml_size 1 0 _ _ p (omega (arith, at)) refl
              ∙ past_end 0 1 _ p (omega (arith, at)))
        | inr (inr e) ↦
            let at : 3 ≡ aml_size = omega (arith, e, some) in
            run 3 e refl at (
              round_runs aml aml_size 2 0 _ _ p (omega (arith, at)) refl
              ∙ round_runs aml aml_size 1 1 _ _ p (omega (arith, at)) refl
              ∙ past_end 0 2 _ p (omega (arith, at)))
      ]
    where
      which : (n : ℕ) → (0 < n) × (n < 4) → (n ≡ 1) ⊎ ((n ≡ 2) ⊎ (n ≡ 3))
      which n h = omega (arith, h)

      run :
          (k : ℕ)
          → aml_size ≡ k
          → leb k 3 ≡ true
          → k ≡ aml_size
          → parse_loop aml aml_size k 0 (aml 0 % 2 ^ 4) p ≡ (fault, p)
          → (parse_pkg_length aml aml_size p).0 ≡ fault
      run k e few whole loop =
          overrun_runs k p (ground arith) (ground arith) (count ∙ e) few whole
            (omega (arith, whole, some)) loop
