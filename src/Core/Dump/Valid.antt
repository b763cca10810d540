-- ===== src/Core/Dump/Valid.antt =====
-- `is_dump_header_valid`: what it accepts, and where it reads past the array of areas.
use switch_os.Base.{
  ℕ, zero, suc, ◌+◌, ◌≤◌, ◌<◌, ◌≡◌, ◌≢◌, inl, inr, refl, ap, ◌∙◌, Bool, true, false, ◌&&◌, arith,
  ltb, ◌==◌, Bool-cases,
}
use mathlib.Core.Logic.{◌↔◌}
use switch_os.Base.Action.{ok, fault}
use switch_os.Core.Header.{CoreHeader, MemArea, max_ram_areas}
use switch_os.Core.Dump.{core_disk_dump_magic, sizes_loop, match_loop, is_dump_header_valid}
use switch_os.Core.Dump.Layout.{DiskMemArea, DumpHeader}

-- A dump header for the memory that `g` describes.
pub record Valid (g : CoreHeader) (h : DumpHeader) : Type 0 where
  pub magic : h.magic ≡ core_disk_dump_magic
  pub waking_vector : h.waking_vector ≢ 0
  pub some_area : h.areas_size ≢ 0
  pub count : h.areas_size ≡ g.ram_areas_size
  pub area :
      (j : ℕ)
      → j < h.areas_size
      → ((h.areas j).size ≢ 0)
        × ((g.ram_areas j).start ≡ (h.areas j).start)
        × ((g.ram_areas j).size ≡ (h.areas j).size)

module _ {S : Type 0} (s : S) where
  abbrev Positive : ℕ → ℕ → (ℕ → DiskMemArea) → Type 0
  Positive k i areas = (j : ℕ) → i ≤ j → j < i + k → (areas j).size ≢ 0

  abbrev Matching : ℕ → ℕ → (ℕ → DiskMemArea) → (ℕ → MemArea) → Type 0
  Matching k i areas ram_areas =
      (j : ℕ)
      → i ≤ j
      → j < i + k
      → ((ram_areas j).start ≡ (areas j).start) × ((ram_areas j).size ≡ (areas j).size)

  from_first :
      (P : ℕ → Type 0) (k i : ℕ)
      → P i
      → ((j : ℕ) → suc i ≤ j → j < suc i + k → P j)
      → (j : ℕ) → i ≤ j
      → j < i + suc k
      → P j
  from_first P k i p ps j a b = elim (Bool-cases (i == j)) [
    | inl e ↦ let e' : i ≡ j = ground arith in rw e' at p
    | inr e ↦ ps j (ground arith) (omega arith)
  ]

  sizes_loop_lem :
      (k i : ℕ) (areas : ℕ → DiskMemArea)
      → i + k ≤ max_ram_areas
      → (b : Bool) × (sizes_loop k i areas s ≡ (ok b, s)) × ((b ≡ true) ↔ Positive k i areas)
  unfolding sizes_loop
  sizes_loop_lem zero i areas fits = (true, refl, ((λ e j a b. absurd (omega arith)), λ p. refl))
  sizes_loop_lem (suc k) i areas fits =
      let (b, e, (to, from)) = sizes_loop_lem k (suc i) areas (omega arith) in
      let in_array : ltb i max_ram_areas ≡ true = ground arith in
      elim (Bool-cases ((areas i).size == 0)) [
        | inl empty ↦ (
          false,
          rw (in_array, empty),
          ((λ f. cc), λ p. absurd (p i (omega arith) (omega arith) (ground arith))),
        )
        | inr positive ↦ (
          b,
          rw (in_array, positive, e),
          (
            (λ t. from_first (λ j. (areas j).size ≢ 0) k i (ground arith) (to t)),
            λ p. from (λ j a c. p j (omega arith) (omega arith)),
          ),
        )
      ]

  match_loop_lem :
      (k i : ℕ) (areas : ℕ → DiskMemArea) (ram_areas : ℕ → MemArea)
      → i + k ≤ max_ram_areas
      → (b : Bool) × (match_loop k i areas ram_areas s ≡ (ok b, s))
        × ((b ≡ true) ↔ Matching k i areas ram_areas)
  unfolding match_loop
  match_loop_lem zero i areas ram_areas fits =
      (true, refl, ((λ e j a b. absurd (omega arith)), λ p. refl))
  match_loop_lem (suc k) i areas ram_areas fits =
      let (b, e, (to, from)) = match_loop_lem k (suc i) areas ram_areas (omega arith) in
      let in_array : ltb i max_ram_areas ≡ true = ground arith in
      elim (Bool-cases
        ((ram_areas i).start == (areas i).start && (ram_areas i).size == (areas i).size)) [
          | inl same ↦ (
            b,
            rw (in_array, same, e),
            (
              (λ t.
                  from_first
                    (λ j.
                      ((ram_areas j).start ≡ (areas j).start)
                      × ((ram_areas j).size ≡ (areas j).size))
                    k i (ground arith) (to t)),
              λ p. from (λ j a c. p j (omega arith) (omega arith)),
            ),
          )
          | inr other ↦ (
            false,
            rw (in_array, other),
            ((λ f. cc), λ p. let q = p i (omega arith) (omega arith) in absurd (ground (arith, q))),
          )
        ]

  sizes_loop_overrun :
      (k i : ℕ) (areas : ℕ → DiskMemArea)
      → i ≤ max_ram_areas
      → max_ram_areas < i + k
      → ((j : ℕ) → i ≤ j → j < max_ram_areas → (areas j).size ≢ 0)
      → sizes_loop k i areas s ≡ (fault, s)
  unfolding sizes_loop
  sizes_loop_overrun zero i areas p many full = absurd (omega arith)
  sizes_loop_overrun (suc k) i areas p many full = elim (Bool-cases (ltb i max_ram_areas)) [
    | inr out ↦ rw out
    | inl inside ↦
        let positive : ((areas i).size == 0) ≡ false =
          let q = full i (omega arith) (ground arith) in ground (arith, q) in
        rw (inside, positive)
          (sizes_loop_overrun k (suc i) areas (ground arith) (omega arith)
            (λ j a b. full j (omega arith) b))
  ]

  reject : {P : Type 0} → ¬ P → (false ≡ true) ↔ P
  reject no_way = ((λ e. cc), λ p. absurd (no_way p))

  module _ (g : CoreHeader) (h : DumpHeader) where
    -- On a header whose count fits the array the function ends normally, changes nothing, and
    -- says exactly whether the header is valid.
    pub is_dump_header_valid_iff :
        h.areas_size ≤ max_ram_areas
        → (b : Bool) × (is_dump_header_valid g h s ≡ (ok b, s)) × ((b ≡ true) ↔ Valid g h)
    unfolding is_dump_header_valid
    is_dump_header_valid_iff fits =
        let (p, e, pos) = sizes_loop_lem h.areas_size 0 h.areas (omega arith) in
        let (m, f, mat) = match_loop_lem h.areas_size 0 h.areas g.ram_areas (omega arith) in
        elim (Bool-cases (h.magic == core_disk_dump_magic)) [
          | inr bad ↦ (false, rw bad, reject (λ v. let q = v.magic in ground (arith, q)))
          | inl magic ↦ elim (Bool-cases (h.waking_vector == 0)) [
            | inl bad ↦ (false, rw (magic, bad), reject (λ v. v.waking_vector (ground arith)))
            | inr vector ↦ elim (Bool-cases (h.areas_size == 0)) [
              | inl bad ↦ (false, rw (magic, vector, bad), reject (λ v. v.some_area (ground arith)))
              | inr some_area ↦ elim (Bool-cases (p && h.areas_size == g.ram_areas_size)) [
                | inl both ↦ (
                  m,
                  rw (magic, vector, some_area, e, both) f,
                  (
                    (λ t. record {
                      magic = ground arith;
                      waking_vector = ground arith;
                      some_area = ground arith;
                      count = ground arith;
                      area = λ j a.
                          let q = mat.0 t j (omega arith) (omega arith) in
                          (pos.0 (ground arith) j (omega arith) (omega arith), q.0, q.1);
                    }),
                    λ v. mat.1 (λ j a b. let q = v.area j (omega arith) in (q.1, q.2)),
                  ),
                )
                | inr bad ↦ (
                  false,
                  rw (magic, vector, some_area, e, bad),
                  reject (λ v.
                      let t = pos.1 (λ j a b. (v.area j (omega arith)).0) in
                      let c = v.count in ground (arith, t, c)),
                )
              ]
            ]
          ]
        ]

    pub is_dump_header_valid-ok :
        h.areas_size ≤ max_ram_areas → Valid g h → is_dump_header_valid g h s ≡ (ok true, s)
    is_dump_header_valid-ok fits valid =
        let (b, e, says) = is_dump_header_valid_iff fits in e ∙ ap (λ c. (ok c, s)) (says.1 valid)

    -- A header with the magic and a waking vector whose count exceeds the array is read past its
    -- end, when none of the areas that are there is empty.
    pub is_dump_header_valid_overrun :
        h.magic ≡ core_disk_dump_magic
        → h.waking_vector ≢ 0
        → max_ram_areas < h.areas_size
        → ((j : ℕ) → j < max_ram_areas → (h.areas j).size ≢ 0)
        → (is_dump_header_valid g h s).0 ≡ fault
    unfolding is_dump_header_valid
    is_dump_header_valid_overrun magic vector many full =
        let known : (h.magic == core_disk_dump_magic) ≡ true = ground arith in
        let awake : (h.waking_vector == 0) ≡ false = ground arith in
        let some_area : (h.areas_size == 0) ≡ false = ground arith in
        rw (
          known,
          awake,
          some_area,
          sizes_loop_overrun h.areas_size 0 h.areas (omega arith) (omega arith) (λ j a. full j),
        )
