-- ===== src/Uefi/Acpi/Checksum.antt =====
-- uefi/acpi/patch/patch_utils.c: the checksum of an ACPI table.
use switch_os.Base.{
  ℕ, zero, suc, ◌+◌, ◌-◌, ◌%◌, ◌^◌, ◌≤◌, ◌<◌, ◌≡◌, refl, ap, ◌∙◌, ◌≢◌, inl, inr, false, ◌==◌,
  if◌then◌else◌, Bool-cases, arith,
}
use switch_os.Base.Bytes.{Bytes, load32}

-- `((uint8_t*)m)[a] = v`
abbrev pub set_byte : Bytes → ℕ → ℕ → Bytes
set_byte m a v x = if x == a then v else m x

-- Where `length` and `checksum` stand in `struct acpi_table_header`.
abbrev pub table_length : ℕ → Bytes → ℕ
table_length table m = load32 m (table + 4)

abbrev pub table_checksum : ℕ → ℕ
table_checksum table = table + 9

-- The loop over the `k` bytes from address `a` on, with the 8-bit sum so far.
unfoldable pub checksum_loop : ℕ → Bytes → ℕ → ℕ → ℕ
checksum_loop zero m a checksum = checksum
checksum_loop (suc k) m a checksum = checksum_loop k m (a + 1) ((checksum + m a) % 2 ^ 8)

unfoldable pub fix_table_checksum : ℕ → Bytes → Bytes
fix_table_checksum table m =
    let reset = set_byte m (table_checksum table) 0 in
    let checksum = checksum_loop (table_length table reset) reset table 0 in
    set_byte reset (table_checksum table) ((2 ^ 8 - checksum) % 2 ^ 8)

-- The plain sum of `k` bytes from `a` on.
total : ℕ → Bytes → ℕ → ℕ
total zero m a = 0
total (suc k) m a = m a + total k m (a + 1)

checksum_loop-total :
    (k : ℕ) (m : Bytes) (a c : ℕ) → c < 2 ^ 8 → checksum_loop k m a c ≡ (c + total k m a) % 2 ^ 8
unfolding checksum_loop total
checksum_loop-total zero m a c p = omega arith
checksum_loop-total (suc k) m a c p =
    let e = checksum_loop-total k m (a + 1) ((c + m a) % 2 ^ 8) (omega arith) in omega (arith, e)

total_elsewhere : (k : ℕ) (m : Bytes) (a p v : ℕ) → p < a → total k (set_byte m p v) a ≡ total k m a
unfolding total
total_elsewhere zero m a p v h = refl
total_elsewhere (suc k) m a p v h =
    let e = total_elsewhere k m (a + 1) p v (omega arith) in
    let other : (a == p) ≡ false = ground arith in rw (other, e)

total-set_byte :
    (k : ℕ) (m : Bytes) (a p v : ℕ)
    → a ≤ p
    → p < a + k
    → total k (set_byte m p v) a + m p ≡ total k m a + v
unfolding total
total-set_byte zero m a p v l h = absurd (omega arith)
total-set_byte (suc k) m a p v l h = elim (Bool-cases (a == p)) [
  | inl e ↦
      let a≡p : a ≡ p = ground arith in
      let rest = total_elsewhere k m (a + 1) p v (omega arith) in
      let same : m a ≡ m p = ap m a≡p in rw (e, rest) (omega (arith, same))
  | inr e ↦
      let rest = total-set_byte k m (a + 1) p v (ground arith) (omega arith) in
      rw e (omega (arith, rest))
]

-- A byte with which the others add up to zero.
completed :
    (n : ℕ) (m : Bytes) (a p : ℕ)
    → a ≤ p
    → p < a + n
    → m p ≡ 0
    → checksum_loop n (set_byte m p ((2 ^ 8 - checksum_loop n m a 0) % 2 ^ 8)) a 0 ≡ 0
completed n m a p l h zero_at =
    let without = checksum_loop-total n m a 0 (omega arith) in
    let v = (2 ^ 8 - checksum_loop n m a 0) % 2 ^ 8 in
    let put = total-set_byte n m a p v l h in
    let sum = checksum_loop-total n (set_byte m p v) a 0 (omega arith) in
    sum ∙ omega (arith, without, put, zero_at)

length-set_byte :
    (table : ℕ) (m : Bytes) (v : ℕ)
    → table_length table (set_byte m (table_checksum table) v) ≡ table_length table m
length-set_byte table m v = ground arith

module _ (table : ℕ) (m : Bytes) where
  -- The bytes of the table in memory `m'` add up to zero modulo 256, and `m'` is `m` but for the
  -- checksum byte.
  pub record Fixed (m' : Bytes) : Type 0 where
    pub sums_to_0 : checksum_loop (table_length table m') m' table 0 ≡ 0
    pub kept : (x : ℕ) → x ≢ table_checksum table → m' x ≡ m x

  -- After `fix_table_checksum` the bytes of a table that reaches past its checksum field add up to
  -- zero modulo 256, and only the checksum byte has changed.
  pub fix_table_checksum-Fixed : 10 ≤ table_length table m → Fixed (fix_table_checksum table m)
  unfolding fix_table_checksum
  fix_table_checksum-Fixed long = record {
    sums_to_0 =
        ap (λ n. checksum_loop n (fix_table_checksum table m) table 0) same_length
        ∙ completed (table_length table reset) reset table (table_checksum table) (omega arith)
            (omega (arith, long, length-set_byte table m 0)) (ground arith);
    kept = λ x ne. ground arith;
  }
    where
      reset : Bytes
      reset = set_byte m (table_checksum table) 0

      same_length : table_length table (fix_table_checksum table m) ≡ table_length table reset
      same_length = length-set_byte table reset _
