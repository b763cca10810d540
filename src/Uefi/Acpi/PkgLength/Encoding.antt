-- ===== src/Uefi/Acpi/PkgLength/Encoding.antt =====
-- The encoding that `build_pkg_length` writes and `parse_pkg_length` reads (uefi/acpi/patch/).
use switch_os.Base.{
  ℕ, suc, ◌+◌, ◌*◌, ◌/◌, ◌%◌, ◌^◌, ◌≤◌, ◌<◌, ◌≡◌, refl, ◌∙◌, true, false, ltb, leb, ◌==◌, arith,
}
use switch_os.Base.Action.{ok}
use switch_os.Uefi.Acpi.PkgLength.{PkgLength, copy_aml, aml_byte, parse_loop, parse_pkg_length}

-- The ACPI encoding of `n` with `k` bytes after the lead byte, by its definition in the standard.
pub data Encodes (aml : ℕ → ℕ) (n : ℕ) : ℕ → Type 0 where
  lone : n ≤ 63 → aml 0 ≡ n → Encodes aml n 0
  one : n / 2 ^ 4 < 2 ^ 8 → aml 0 ≡ 2 ^ 6 + n % 2 ^ 4 → aml 1 ≡ n / 2 ^ 4 → Encodes aml n 1
  two :
      n / 2 ^ 4 < 2 ^ 16
      → aml 0 ≡ 2 * 2 ^ 6 + n % 2 ^ 4
      → aml 1 ≡ n / 2 ^ 4 % 2 ^ 8
      → aml 2 ≡ n / 2 ^ 12
      → Encodes aml n 2
  three :
      n / 2 ^ 4 < 2 ^ 24
      → aml 0 ≡ 3 * 2 ^ 6 + n % 2 ^ 4
      → aml 1 ≡ n / 2 ^ 4 % 2 ^ 8
      → aml 2 ≡ n / 2 ^ 12 % 2 ^ 8
      → aml 3 ≡ n / 2 ^ 20
      → Encodes aml n 3

-- What parsing leaves in `*pkg_length_out`.
abbrev pub parsed : (ℕ → ℕ) → ℕ → ℕ → PkgLength → PkgLength
parsed aml n k p = copy_aml aml (record p { encoded_size = k + 1; size = n })

module _ (aml : ℕ → ℕ) (aml_size : ℕ) where
  long_runs :
      (n k : ℕ) (p : PkgLength)
      → leb (aml 0) 63 ≡ false
      → (aml 0 / 2 ^ 4 % 2 ^ 2 == 0) ≡ true
      → aml 0 / 2 ^ 6 % 2 ^ 2 ≡ k
      → leb k 3 ≡ true
      → k < aml_size
      → parse_loop aml aml_size k 0 (aml 0 % 2 ^ 4) p ≡ (ok n, p)
      → parse_pkg_length aml aml_size p ≡ (ok tt, parsed aml n k p)
  unfolding parse_pkg_length
  long_runs n k p long reserved count few inside loop =
      let some : ltb 0 aml_size ≡ true = ground arith in
      let fits : leb k aml_size ≡ true = ground arith in
      let whole : leb (k + 1) aml_size ≡ true = ground arith in
      rw (some, long, reserved, count, few, fits, loop, whole)

  -- One round of the loop at a byte of the buffer.
  pub round_runs :
      (k i size b : ℕ) (p : PkgLength)
      → i + 1 < aml_size
      → aml (i + 1) ≡ b
      → parse_loop aml aml_size (suc k) i size p
        ≡ parse_loop aml aml_size k (suc i) (size + b * 2 ^ (8 * i + 4)) p
  unfolding parse_loop aml_byte
  round_runs k i size b p inside e =
      let here : ltb (i + 1) aml_size ≡ true = ground arith in rw (here, e)

  loop_ends :
      (i size n : ℕ) (p : PkgLength) → size ≡ n → parse_loop aml aml_size 0 i size p ≡ (ok n, p)
  unfolding parse_loop
  loop_ends i size n p e = rw e

  -- `parse_pkg_length` reads every encoding of the standard that lies in the buffer: it succeeds
  -- with the encoded length and the number of bytes, and copies these bytes.
  pub parse_pkg_length-Encodes :
      (n k : ℕ) (p : PkgLength)
      → Encodes aml n k
      → k < aml_size
      → parse_pkg_length aml aml_size p ≡ (ok tt, parsed aml n k p)
  unfolding parse_pkg_length
  parse_pkg_length-Encodes n k p (lone small lead) inside =
      let some : ltb 0 aml_size ≡ true = ground arith in
      let short : leb (aml 0) 63 ≡ true = ground (arith, lead) in
      let whole : leb 1 aml_size ≡ true = ground arith in rw (some, short, whole, lead)
  parse_pkg_length-Encodes n k p (one small lead a) inside =
      long_runs n 1 p (ground (arith, lead)) (ground (arith, lead)) (omega (arith, lead)) refl
        inside (round_runs 0 0 _ _ p (omega arith) a ∙ loop_ends 1 _ n p (omega (arith, lead)))
  parse_pkg_length-Encodes n k p (two small lead a b) inside =
      long_runs n 2 p (ground (arith, lead)) (ground (arith, lead)) (omega (arith, lead)) refl
        inside
        (round_runs 1 0 _ _ p (omega arith) a
          ∙ round_runs 0 1 _ _ p (omega arith) b
          ∙ loop_ends 2 _ n p (omega (arith, lead)))
  parse_pkg_length-Encodes n k p (three small lead a b c) inside =
      long_runs n 3 p (ground (arith, lead)) (ground (arith, lead)) (omega (arith, lead)) refl
        inside
        (round_runs 2 0 _ _ p (omega arith) a
          ∙ round_runs 1 1 _ _ p (omega arith) b
          ∙ round_runs 0 2 _ _ p (omega arith) c
          ∙ loop_ends 3 _ n p (omega (arith, lead)))
