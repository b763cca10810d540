-- ===== src/Uefi/Acpi/PkgLength.antt =====
-- uefi/acpi/patch/pkg_length.c: the length field of an AML package.
pub mod Encoding
pub mod Building
pub mod Errors
use switch_os.Base.{
  ℕ, zero, suc, ◌+◌, ◌-◌, ◌*◌, ◌/◌, ◌%◌, ◌^◌, Bool, true, false, not, ltb, leb, ◌==◌, if◌then◌else◌,
}
use switch_os.Base.Action.{
  ⊤, Action, Result, invalid, fault, hang, pure, fail, gets, modify, check, ◌>>=◌, ◌>>◌,
}

abbrev pub max_pkg_length_encoded_size : ℕ
max_pkg_length_encoded_size = 4

abbrev pub max_pkg_length_size : ℕ
max_pkg_length_size = 2 ^ 28

pub record PkgLength : Type 0 where
  pub size : ℕ
  pub encoded_size : ℕ
  pub aml : ℕ → ℕ

-- `aml[i] = v`
abbrev pub set_aml : ℕ → ℕ → PkgLength → PkgLength
set_aml i v p = record p { aml = λ j. if j == i then v else p.aml j }

-- The `while` loop. It answers with the last `byte_count` and `size`.
unfoldable pub build_loop : ℕ → (size byte_count : ℕ) → Action PkgLength (ℕ × ℕ)
build_loop zero size byte_count = fail hang
build_loop (suc fuel) size byte_count =
    let rest = build_loop fuel (size / 2 ^ 8) (byte_count + 1) in
    if size == 0 then pure (byte_count, size) else (do
      check (leb (byte_count + 1) max_pkg_length_encoded_size)
      modify (set_aml byte_count (size % 2 ^ 8))
      rest)

-- The state is `*pkg_length_out`. The loop ends or fails at its check in four rounds.
unfoldable pub build_pkg_length : ℕ → Action PkgLength ⊤
build_pkg_length size = do
  check (leb size max_pkg_length_size)
  if leb size 63
      then modify (λ p. record (set_aml 0 size p) { encoded_size = 1; size = size })
      else (do
        modify (set_aml 0 (size % 2 ^ 4))
        (byte_count, size) ← build_loop 5 (size / 2 ^ 4) 1
        modify (set_aml 0 ((byte_count - 1) * 2 ^ 6 % 2 ^ 8))
        modify (λ p. record p { encoded_size = byte_count; size = size }))

-- `aml[i]` in a buffer of `aml_size` bytes.
unfoldable pub aml_byte : (ℕ → ℕ) → ℕ → ℕ → Action PkgLength ℕ
aml_byte aml aml_size i = if ltb i aml_size then pure (aml i) else fail fault

-- The loop over the bytes after the lead byte. `|` adds, since the shifted byte and `size` share no
-- bit.
unfoldable pub parse_loop : (ℕ → ℕ) → ℕ → (k i size : ℕ) → Action PkgLength ℕ
parse_loop aml aml_size zero i size = pure size
parse_loop aml aml_size (suc k) i size = do
  b ← aml_byte aml aml_size (i + 1)
  parse_loop aml aml_size k (suc i) (size + b * 2 ^ (8 * i + 4))

-- The last `memset` and `memcpy`.
abbrev pub copy_aml : (ℕ → ℕ) → PkgLength → PkgLength
copy_aml aml p = record p { aml = λ j. if ltb j p.encoded_size then aml j else 0 }

unfoldable pub parse_pkg_length : (ℕ → ℕ) → ℕ → Action PkgLength ⊤
parse_pkg_length aml aml_size = do
  check (ltb 0 aml_size)
  if leb (aml 0) 63 then modify (λ p. record p { encoded_size = 1; size = aml 0 }) else (do
    check (aml 0 / 2 ^ 4 % 2 ^ 2 == 0)
    let bytedata_count = aml 0 / 2 ^ 6 % 2 ^ 2
    check (leb bytedata_count 3)
    check (leb bytedata_count aml_size)
    size ← parse_loop aml aml_size bytedata_count 0 (aml 0 % 2 ^ 4)
    modify (λ p. record p { encoded_size = bytedata_count + 1; size = size }))
  n ← gets (λ p. p.encoded_size)
  if leb n aml_size then modify (copy_aml aml) else fail fault
