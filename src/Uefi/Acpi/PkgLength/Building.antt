-- ===== src/Uefi/Acpi/PkgLength/Building.antt =====
-- What `build_pkg_length` writes (uefi/acpi/patch/pkg_length.c).
use switch_os.Base.{
  ℕ, suc, ◌+◌, ◌-◌, ◌*◌, ◌/◌, ◌%◌, ◌^◌, ◌≤◌, ◌<◌, ◌≡◌, ◌≢◌, refl, sym, ◌∙◌, inl, inr, true, false,
  ltb, leb, ◌==◌, if◌then◌else◌, Bool-cases, arith,
}
use switch_os.Base.Action.{ok, invalid}
use switch_os.Uefi.Acpi.PkgLength.{
  PkgLength, set_aml, build_loop, build_pkg_length, parse_pkg_length, max_pkg_length_size,
}
use switch_os.Uefi.Acpi.PkgLength.Encoding.{
  Encodes, lone, one, two, three, parsed, parse_pkg_length-Encodes,
}

-- What `build_pkg_length` keeps of a length: all of a short one, and of a longer one all but the
-- four lowest bits.
abbrev pub kept : ℕ → ℕ
kept n = if leb n 63 then n else n - n % 2 ^ 4

-- A longer length is stored as 0 in the `size` field.
abbrev pub stored_size : ℕ → ℕ
stored_size n = if leb n 63 then n else 0

pub record Built (n : ℕ) (p : PkgLength) : Type 0 where
  pub bytes : ℕ
  pub few : bytes < 4
  pub encoded_eq : p.encoded_size ≡ bytes + 1
  pub size_eq : p.size ≡ stored_size n
  pub encodes : Encodes p.aml (kept n) bytes

long_build_runs :
    (n : ℕ) (p q : PkgLength) (count : ℕ)
    → 63 < n
    → n ≤ max_pkg_length_size
    → build_loop 5 (n / 2 ^ 4) 1 (set_aml 0 (n % 2 ^ 4) p) ≡ (ok (count, 0), q)
    → build_pkg_length n p ≡ (
      ok tt,
      record (set_aml 0 ((count - 1) * 2 ^ 6 % 2 ^ 8) q) { encoded_size = count; size = 0 },
    )
unfolding build_pkg_length
long_build_runs n p q count long fits e =
    let a : leb n max_pkg_length_size ≡ true = ground arith in
    let b : leb n 63 ≡ false = ground arith in rw (a, b, e)

pub build_round :
    (fuel size count : ℕ) (p : PkgLength)
    → size ≢ 0
    → count < 4
    → build_loop (suc fuel) size count p
      ≡ build_loop fuel (size / 2 ^ 8) (count + 1) (set_aml count (size % 2 ^ 8) p)
unfolding build_loop
build_round fuel size count p some room =
    let a : (size == 0) ≡ false = ground arith in
    let b : leb (count + 1) 4 ≡ true = ground arith in rw (a, b)

build_ends :
    (fuel size count : ℕ) (p : PkgLength)
    → size ≡ 0
    → build_loop (suc fuel) size count p ≡ (ok (count, 0), p)
unfolding build_loop
build_ends fuel size count p e = rw e

pub build_full :
    (fuel size : ℕ) (p : PkgLength) → size ≢ 0 → build_loop (suc fuel) size 4 p ≡ (invalid, p)
unfolding build_loop
build_full fuel size p some = let a : (size == 0) ≡ false = ground arith in rw a

abbrev Builds : ℕ → PkgLength → Type 0
Builds n p = (q : PkgLength) × (build_pkg_length n p ≡ (ok tt, q)) × Built n q

short_Built : (n : ℕ) (p : PkgLength) → leb n 63 ≡ true → Builds n p
unfolding build_pkg_length
short_Built n p short =
    let a : leb n max_pkg_length_size ≡ true = ground arith in
    (
      record (set_aml 0 n p) { encoded_size = 1; size = n },
      rw (a, short),
      record {
        bytes = 0;
        few = omega arith;
        encoded_eq = refl;
        size_eq = rw short;
        encodes = rw short (lone (ground arith) refl);
      },
    )

module _ (n : ℕ) (p : PkgLength) (small : n < max_pkg_length_size) (long : leb n 63 ≡ false) where
  big : 63 < n
  big = ground arith

  one_Built : n / 2 ^ 4 < 2 ^ 8 → Builds n p
  one_Built h = (
    _,
    long_build_runs n p _ 2 big (omega arith)
        (build_round 4 _ 1 _ (omega (arith, big)) (omega arith) ∙ build_ends 3 _ 2 _ (omega arith)),
    record {
      bytes = 1;
      few = omega arith;
      encoded_eq = refl;
      size_eq = rw long;
      encodes = rw long (one (omega arith) (omega arith) (omega arith));
    },
  )

  two_Built : 2 ^ 8 ≤ n / 2 ^ 4 → n / 2 ^ 4 < 2 ^ 16 → Builds n p
  two_Built l h = (
    _,
    long_build_runs n p _ 3 big (omega arith) (
        build_round 4 _ 1 _ (omega (arith, big)) (omega arith)
        ∙ build_round 3 _ 2 _ (omega arith) (omega arith)
        ∙ build_ends 2 _ 3 _ (omega arith)),
    record {
      bytes = 2;
      few = omega arith;
      encoded_eq = refl;
      size_eq = rw long;
      encodes = rw long (two (omega arith) (omega arith) (omega arith) (omega arith));
    },
  )

  three_Built : 2 ^ 16 ≤ n / 2 ^ 4 → Builds n p
  three_Built l = (
    _,
    long_build_runs n p _ 4 big (omega arith) (
        build_round 4 _ 1 _ (omega (arith, big)) (omega arith)
        ∙ build_round 3 _ 2 _ (omega arith) (omega arith)
        ∙ build_round 2 _ 3 _ (omega arith) (omega arith)
        ∙ build_ends 1 _ 4 _ (omega arith)),
    record {
      bytes = 3;
      few = omega arith;
      encoded_eq = refl;
      size_eq = rw long;
      encodes =
          rw long (three (omega arith) (omega arith) (omega arith) (omega arith) (omega arith));
    },
  )

  long_Built : Builds n p
  long_Built = elim (Bool-cases (ltb (n / 2 ^ 4) (2 ^ 8))) [
    | inl a ↦ one_Built (ground arith)
    | inr a ↦ elim (Bool-cases (ltb (n / 2 ^ 4) (2 ^ 16))) [
      | inl b ↦ two_Built (ground arith) (ground arith)
      | inr b ↦ three_Built (ground arith)
    ]
  ]

-- For a length below 2 ^ 28 `build_pkg_length` succeeds, and what it writes is the standard's
-- encoding of the part of the length that it keeps, which for a length above 63 is without the four
-- lowest bits; the `size` field is then 0.
pub build_pkg_length-Built :
    (n : ℕ) (p : PkgLength)
    → n < max_pkg_length_size
    → (q : PkgLength) × (build_pkg_length n p ≡ (ok tt, q)) × Built n q
build_pkg_length-Built n p small = elim (Bool-cases (leb n 63)) [
  | inl short ↦ short_Built n p short
  | inr long ↦ long_Built n p small long
]

-- Parsing what `build_pkg_length` wrote for a length below 2 ^ 28, in a buffer that holds it, gives
-- the part of the length that was kept.
pub parse-build_pkg_length :
    (n aml_size : ℕ) (p p' : PkgLength)
    → n < max_pkg_length_size
    → 3 < aml_size
    → (q : PkgLength) × (build_pkg_length n p ≡ (ok tt, q))
      × (q' : PkgLength) × (parse_pkg_length q.aml aml_size p' ≡ (ok tt, q'))
      × (q'.size ≡ kept n)
      × (q'.encoded_size ≡ q.encoded_size)
parse-build_pkg_length n aml_size p p' small room =
    let (q, e, built) = build_pkg_length-Built n p small in
    (
      q,
      e,
      parsed q.aml (kept n) built.bytes p',
      parse_pkg_length-Encodes q.aml aml_size (kept n) built.bytes p' built.encodes
          (omega (arith, built.few)),
      refl,
      sym built.encoded_eq,
    )
