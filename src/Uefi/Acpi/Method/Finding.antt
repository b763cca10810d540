-- ===== src/Uefi/Acpi/Method/Finding.antt =====
-- What the scan of `find_method` (uefi/acpi/patch/method.c) passes over and finds.
use switch_os.Base.{
  inr, inl, Bool-cases, ◌⊎◌, ℕ, zero, suc, ◌+◌, ◌-◌, ◌≤◌, ◌<◌, ◌≡◌, ◌≢◌, refl, ap, ◌∙◌, Bool, true,
  false, leb, ◌==◌, Option, none, some, arith,
}
use switch_os.Base.Action.{⊤, Result, ok, invalid}
use switch_os.Base.Bytes.{Bytes}
use switch_os.Uefi.Acpi.PkgLength.{PkgLength, parse_pkg_length}
use switch_os.Uefi.Acpi.Method.{
  aml_method_op, aml_method_name_len, same_bytes, Scan, find_round, check_name, find_loop,
}

module _ (aml : Bytes) (aml_size : ℕ) (name : Bytes) where
  -- The scan passes over bytes that are no method operator.
  skip_round :
      (k i : ℕ) (s : Scan)
      → (aml i == aml_method_op) ≡ false
      → find_loop aml aml_size name (suc k) i s ≡ find_loop aml aml_size name k (suc i) s
  unfolding find_loop find_round
  skip_round k i s e = rw e refl

  skip :
      (k m i : ℕ) (s : Scan)
      → ((x : ℕ) → i ≤ x → x < i + k → aml x ≢ aml_method_op)
      → find_loop aml aml_size name (k + m) i s ≡ find_loop aml aml_size name m (i + k) s
  skip zero m i s other =
      let e : 0 + m ≡ m = omega arith in let f : i + 0 ≡ i = omega arith in rw (e, f) refl
  skip (suc k) m i s other =
      let e : suc k + m ≡ suc (k + m) = omega arith in
      let f : i + suc k ≡ suc i + k = omega arith in
      let no_op = other i (omega arith) (omega arith) in
      rw (e, f)
        (skip_round (k + m) i s (ground (arith, no_op))
          ∙ skip k m (suc i) s (λ x p q. other x (omega arith) (omega arith)))

  -- The package length at `i`, as it is parsed over the one of the state.
  abbrev pub length_at : ℕ → PkgLength → Result ⊤ × PkgLength
  length_at i p = parse_pkg_length (λ j. aml (i + 1 + j)) (aml_size - i - 1) p

  abbrev pub name_at : ℕ → PkgLength → Bool
  name_at i p = same_bytes aml_method_name_len aml (i + 1 + p.encoded_size) name 0

  match_round :
      (k i : ℕ) (p q : PkgLength)
      → (aml i == aml_method_op) ≡ true
      → length_at i p ≡ (ok tt, q)
      → leb (i + 1 + q.encoded_size + aml_method_name_len) aml_size ≡ true
      → name_at i q ≡ true
      → find_loop aml aml_size name (suc k) i (record { method_start = none; pkg_length = p })
        ≡ find_loop aml aml_size name k (suc i) (record { method_start = some i; pkg_length = q })
  unfolding find_loop find_round check_name
  match_round k i p q e f g h = rw (e, f, g, h) refl

  other_round :
      (k i : ℕ) (start : Option ℕ) (p q : PkgLength)
      → (aml i == aml_method_op) ≡ true
      → length_at i p ≡ (ok tt, q)
      → leb (i + 1 + q.encoded_size + aml_method_name_len) aml_size ≡ true
      → name_at i q ≡ false
      → find_loop aml aml_size name (suc k) i (record { method_start = start; pkg_length = p })
        ≡ find_loop aml aml_size name k (suc i) (record { method_start = start; pkg_length = q })
  unfolding find_loop find_round check_name
  other_round k i start p q e f g h = rw (e, f, g, h) refl

  find_none : (i : ℕ) (s : Scan) → find_loop aml aml_size name 0 i s ≡ (ok tt, s)
  unfolding find_loop
  find_none i s = refl

  skip_to :
      (k m i j : ℕ) (s : Scan)
      → i + k ≡ j
      → ((x : ℕ) → i ≤ x → x < j → aml x ≢ aml_method_op)
      → find_loop aml aml_size name (k + m) i s ≡ find_loop aml aml_size name m j s
  skip_to k m i j s e other =
      skip k m i s (λ x p q. other x p (omega (arith, q, e)))
      ∙ ap (λ j. find_loop aml aml_size name m j s) e

  -- The scan passes over a method operator at `i`: what follows is no package length, or has behind
  -- it another name that lies in the bytes.
  abbrev pub PassedOver : ℕ → PkgLength → Type 0
  PassedOver i p =
      ((q : PkgLength) × (length_at i p ≡ (invalid, q)))
      ⊎ ((q : PkgLength) × (length_at i p ≡ (ok tt, q))
          × (i + 1 + q.encoded_size + aml_method_name_len ≤ aml_size)
          × (name_at i q ≡ false))

  -- The bytes declare no method of the name.
  abbrev pub Absent : Type 0
  Absent = (i : ℕ) (p : PkgLength) → i < aml_size → aml i ≡ aml_method_op → PassedOver i p

  no_length_round :
      (k i : ℕ) (start : Option ℕ) (p q : PkgLength)
      → (aml i == aml_method_op) ≡ true
      → length_at i p ≡ (invalid, q)
      → find_loop aml aml_size name (suc k) i (record { method_start = start; pkg_length = p })
        ≡ find_loop aml aml_size name k (suc i) (record { method_start = start; pkg_length = q })
  unfolding find_loop find_round
  no_length_round k i start p q e f = rw (e, f) refl

  -- The scan of bytes that declare no method of the name, up to `j` with `m` rounds left.
  pass_to :
      (k m i j : ℕ) (start : Option ℕ) (p : PkgLength)
      → i + k ≡ j
      → ((x : ℕ) (p : PkgLength) → i ≤ x → x < j → aml x ≡ aml_method_op → PassedOver x p)
      → (q : PkgLength) × (find_loop aml aml_size name
            (k + m)
            i
            (record { method_start = start; pkg_length = p })
          ≡ find_loop aml aml_size name m j (record { method_start = start; pkg_length = q }))
  pass_to zero m i j start p e others =
      let same : i ≡ j = omega (arith, e) in
      let none_left : 0 + m ≡ m = omega arith in (p, rw (none_left, same) refl)
  pass_to (suc k) m i j start p e others =
      let count : suc k + m ≡ suc (k + m) = omega arith in
      let next = λ (q : PkgLength).
        pass_to k m (suc i) j start q (omega (arith, e))
          (λ x p a b. others x p (omega (arith, a)) b) in
      elim (Bool-cases (aml i == aml_method_op)) [
        | inr f ↦
            let (r, run) = next p in
            (
              r,
              rw count
                  (skip_round (k + m) i (record { method_start = start; pkg_length = p }) f ∙ run),
            )
        | inl f ↦ elim (others i p (omega arith) (omega (arith, e)) (ground (arith, f))) [
          | inl (q, no_length) ↦
              let (r, run) = next q in
              (r, rw count (no_length_round (k + m) i start p q f no_length ∙ run))
          | inr (q, parses, fits, other) ↦
              let (r, run) = next q in
              (
                r,
                rw count
                    (other_round (k + m) i start p q f parses (ground (arith, fits)) other ∙ run),
              )
        ]
      ]

  pub find_loop_missing :
      (p : PkgLength)
      → Absent
      → (q : PkgLength) × (find_loop aml aml_size name aml_size 0
            (record { method_start = none; pkg_length = p })
          ≡ (ok tt, record { method_start = none; pkg_length = q }))
  find_loop_missing p absent =
      let all : aml_size ≡ aml_size + 0 = omega arith in
      let (q, run) = pass_to aml_size 0 0 aml_size none p (omega arith) (λ x p a b. absent x p b) in
      (
        q,
        ap (λ n. find_loop aml aml_size name n 0 (record { method_start = none; pkg_length = p }))
              all
            ∙ run
            ∙ find_none aml_size (record { method_start = none; pkg_length = q }),
      )

  -- The method is declared at `j`, where its length parses to `q`, and nowhere else. The last method
  -- operator that the bytes hold is behind it at `i` and parses to `r`.
  pub record Declared (j i : ℕ) (q r : PkgLength) : Type 0 where
    pub order : (j < i) × (i < aml_size)
    pub ops : (aml j ≡ aml_method_op) × (aml i ≡ aml_method_op)
    pub others : (x : ℕ) (p : PkgLength) → x < i → x ≢ j → aml x ≡ aml_method_op → PassedOver x p
    pub last : (x : ℕ) → i < x → x < aml_size → aml x ≢ aml_method_op
    pub parses : (p : PkgLength) → (length_at j p ≡ (ok tt, q)) × (length_at i p ≡ (ok tt, r))
    pub fits :
        (j + 1 + q.encoded_size + aml_method_name_len ≤ aml_size)
        × (i + 1 + r.encoded_size + aml_method_name_len ≤ aml_size)
    pub names : (name_at j q ≡ true) × (name_at i r ≡ false)

  pub find_loop-Declared :
      (garbage : PkgLength) (j i : ℕ) (q r : PkgLength)
      → Declared j i q r
      → find_loop aml aml_size name aml_size 0
          (record { method_start = none; pkg_length = garbage })
        ≡ (ok tt, record { method_start = some j; pkg_length = r })
  find_loop-Declared garbage j i q r d =
      let between = i - suc j in
      let after = aml_size - suc i in
      let (lt, inside) = d.order in
      let size : aml_size ≡ j + suc (between + suc after) = omega (arith, lt, inside) in
      let all : after ≡ after + 0 = omega arith in
      let s₀ : Scan = record { method_start = none; pkg_length = garbage } in
      let s₂ : Scan = record { method_start = some j; pkg_length = r } in
      let (p₁, before) =
        pass_to j (suc (between + suc after)) 0 j none garbage (omega arith)
          (λ x p a b. d.others x p (omega (arith, b, lt)) (λ e. omega (arith, e, b))) in
      let (p₂, up_to) =
        pass_to between (suc after) (suc j) i (some j) q (omega (arith, lt))
          (λ x p a b. d.others x p b (λ e. omega (arith, e, a))) in
      ap (λ n. find_loop aml aml_size name n 0 s₀) size
      ∙ before
      ∙ match_round (between + suc after) j p₁ q (ground (arith, d.ops)) (d.parses p₁).0
          (ground (arith, d.fits)) d.names.0
      ∙ up_to
      ∙ other_round after i (some j) p₂ r (ground (arith, d.ops)) (d.parses p₂).1
          (ground (arith, d.fits)) d.names.1
      ∙ ap (λ n. find_loop aml aml_size name n (suc i) s₂) all
      ∙ skip_to after 0 (suc i) aml_size s₂ (omega (arith, inside))
          (λ x a b. d.last x (omega (arith, a)) b)
      ∙ find_none aml_size s₂
