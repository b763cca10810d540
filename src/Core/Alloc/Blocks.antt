-- ===== src/Core/Alloc/Blocks.antt =====
-- The blocks of core/alloc.c and where they lie.
use switch_os.Base.{
  ℕ, zero, suc, ◌+◌, ◌-◌, ◌%◌, ◌^◌, ◌≤◌, ◌<◌, ◌≡◌, ◌≢◌, refl, sym, ◌∙◌, ◌⊎◌, inl, inr, Bool, true,
  false, ◌&&◌, leb, ◌==◌, Bool-cases, some, arith,
}
use switch_os.Base.Bytes.{Apart}
use switch_os.Core.Alloc.{
  allocators, block_size, buf_size, allocation_loop, find_allocator_for_allocation,
}

-- What the linker promises: no buffer lies at address 0 or past the last address, and no two share
-- a byte. They may touch.
pub record Laid (buffer : ℕ → ℕ) : Type 0 where
  pub placed : (i : ℕ) → i < allocators → (0 < buffer i) × (buffer i + buf_size i < 2 ^ 64)
  pub spaced :
      (i j : ℕ)
      → i < allocators
      → j < allocators
      → i ≢ j
      → Apart (buffer i) (buf_size i) (buffer j) (buf_size j)

-- Address `a` is that of a block of allocator `i`.
pub record IsBlock (buffer : ℕ → ℕ) (i a : ℕ) : Type 0 where
  pub from : buffer i ≤ a
  pub upto : a + block_size i ≤ buffer i + buf_size i
  pub whole : (a - buffer i) % block_size i ≡ 0

pub size_known :
    (i : ℕ)
    → (block_size i ≡ 32)
      ⊎ ((block_size i ≡ 64)
          ⊎ ((block_size i ≡ 128) ⊎ ((block_size i ≡ 256) ⊎ (block_size i ≡ 8192))))
size_known i = ground arith

pub multiples-Apart :
    (n x y : ℕ)
    → (n ≡ 32) ⊎ ((n ≡ 64) ⊎ ((n ≡ 128) ⊎ ((n ≡ 256) ⊎ (n ≡ 8192))))
    → x % n ≡ 0
    → y % n ≡ 0
    → x ≢ y
    → Apart x n y n
multiples-Apart n x y (inl e) p q ne = rw e (omega (arith, (rw e at p), (rw e at q), ne))
multiples-Apart n x y (inr (inl e)) p q ne = rw e (omega (arith, (rw e at p), (rw e at q), ne))
multiples-Apart n x y (inr (inr (inl e))) p q ne =
    rw e (omega (arith, (rw e at p), (rw e at q), ne))
multiples-Apart n x y (inr (inr (inr (inl e)))) p q ne =
    rw e (omega (arith, (rw e at p), (rw e at q), ne))
multiples-Apart n x y (inr (inr (inr (inr e)))) p q ne =
    rw e (omega (arith, (rw e at p), (rw e at q), ne))

pub size_least : (i : ℕ) → 32 ≤ block_size i
size_least i = ground arith

module _ {buffer : ℕ → ℕ} (laid : Laid buffer) where
  -- Two different blocks share none of their first 32 bytes.
  pub blocks-Apart :
      (i j a b : ℕ)
      → i < allocators
      → j < allocators
      → IsBlock buffer i a
      → IsBlock buffer j b
      → a ≢ b
      → Apart a 32 b 32
  blocks-Apart i j a b p q x y ne = elim (Bool-cases (i == j)) [
    | inl e ↦
        let i≡j : i ≡ j = ground arith in
        let y' : IsBlock buffer i b = rw (sym i≡j) at y in
        let gap =
          multiples-Apart (block_size i) (a - buffer i) (b - buffer i) (size_known i) x.whole
            y'.whole (λ e. ne (omega (arith, e, x.from, y'.from))) in
        omega (arith, gap, x.from, y'.from, size_least i)
    | inr e ↦ omega (
      arith,
      laid.spaced i j p q (ground arith),
      x.from,
      x.upto,
      y.from,
      y.upto,
      size_least i,
      size_least j,
    )
  ]

  -- The block of one allocator is no block of another.
  pub one_allocator :
      (i j a : ℕ)
      → i < allocators
      → j < allocators
      → i ≢ j
      → IsBlock buffer i a
      → ¬ IsBlock buffer j a
  one_allocator i j a p q ne x y =
      omega
        (arith, laid.spaced i j p q ne, x.from, x.upto, y.from, y.upto, size_least i, size_least j)

  -- The allocator that the loop finds for a block of allocator `i`: that one, or an earlier one
  -- whose buffer ends where the block begins.
  abbrev pub Found : (k i a : ℕ) → Type 0
  Found k i a = (k ≡ i) ⊎ ((k < i) × (buffer k + buf_size k ≡ a))

  here_runs :
      (k j a : ℕ)
      → leb (buffer j) a ≡ true
      → leb a (buffer j + buf_size j) ≡ true
      → allocation_loop buffer (suc k) j a ≡ some j
  unfolding allocation_loop
  here_runs k j a l u = rw (l, u)

  later_runs :
      (k j a : ℕ)
      → (leb (buffer j) a && leb a (buffer j + buf_size j)) ≡ false
      → allocation_loop buffer (suc k) j a ≡ allocation_loop buffer k (suc j) a
  unfolding allocation_loop
  later_runs k j a e = rw e refl

  hit_at :
      (j i a : ℕ)
      → j < allocators
      → j < i
      → i < allocators
      → IsBlock buffer i a
      → (leb (buffer j) a && leb a (buffer j + buf_size j)) ≡ true
      → buffer j + buf_size j ≡ a
  hit_at j i a p lt q x e =
      let (l, u) = both (leb (buffer j) a) (leb a (buffer j + buf_size j)) e in
      let l' : buffer j ≤ a = ground (arith, l) in
      let u' : a ≤ buffer j + buf_size j = ground (arith, u) in
      omega (
        arith,
        laid.spaced j i p q (λ e. omega (arith, e, lt)),
        l',
        u',
        x.from,
        x.upto,
        size_least i,
      )
    where
      both : (b c : Bool) → (b && c) ≡ true → (b ≡ true) × (c ≡ true)
      both true true e = (refl, refl)
      both true false e = absurd (ground (arith, e))
      both false c e = absurd (ground (arith, e))

  allocation_loop-Found :
      (k j i a : ℕ)
      → j + k ≡ allocators
      → j ≤ i
      → i < allocators
      → IsBlock buffer i a
      → (o : ℕ) × (allocation_loop buffer k j a ≡ some o) × Found o i a
  allocation_loop-Found zero j i a e le p x = absurd (omega arith)
  allocation_loop-Found (suc k) j i a e le p x = elim (Bool-cases (j == i)) [
    | inl f ↦
        let j≡i : j ≡ i = ground arith in
        let l : leb (buffer j) a ≡ true = rw j≡i (ground (arith, x.from)) in
        let u : leb a (buffer j + buf_size j) ≡ true = rw j≡i (ground (arith, x.upto)) in
        (j, here_runs k j a l u, inl j≡i)
    | inr f ↦
        let lt : j < i = ground (arith, le, f) in
        elim (Bool-cases (leb (buffer j) a && leb a (buffer j + buf_size j))) [
          | inl h ↦
              let at_end = hit_at j i a (omega arith) lt p x h in
              (
                j,
                here_runs k j a (ground (arith, at_end)) (ground (arith, at_end)),
                inr (lt, at_end),
              )
          | inr h ↦
              let (o, run, found) = allocation_loop-Found k (suc j) i a (omega arith) lt p x in
              (o, later_runs k j a h ∙ run, found)
        ]
  ]

  pub find_allocator_for_allocation-Found :
      (i a : ℕ)
      → i < allocators
      → IsBlock buffer i a
      → (o : ℕ) × (find_allocator_for_allocation buffer a ≡ some o) × Found o i a
  unfolding find_allocator_for_allocation
  find_allocator_for_allocation-Found i a p x =
      allocation_loop-Found allocators 0 i a refl (omega arith) p x

-- Address `a` may lie in the list of allocator `i`: it is that of a block of this or a later
-- allocator, whose blocks are no smaller, and `core_free` of it goes to this list or to an earlier
-- one.
pub record Filed (buffer : ℕ → ℕ) (i a : ℕ) : Type 0 where
  pub owner : ℕ
  pub order : (i ≤ owner) × (owner < allocators)
  pub block : IsBlock buffer owner a
  pub goes_to : ℕ
  pub goes : (goes_to ≤ i) × (find_allocator_for_allocation buffer a ≡ some goes_to)

pub size_grows : (i j : ℕ) → i ≤ j → block_size i ≤ block_size j
size_grows i j le = ground (arith, le)

module _ {buffer : ℕ → ℕ} (laid : Laid buffer) where
  pub IsBlock-Filed : (i a : ℕ) → i < allocators → IsBlock buffer i a → Filed buffer i a
  IsBlock-Filed i a p x =
      let (o, run, found) = find_allocator_for_allocation-Found laid i a p x in
      record {
        owner = i;
        order = (omega arith, p);
        block = x;
        goes_to = o;
        goes = (omega (arith, found), run);
      }

  pub Filed-Apart : (i j a b : ℕ) → Filed buffer i a → Filed buffer j b → a ≢ b → Apart a 32 b 32
  Filed-Apart i j a b x y ne =
      blocks-Apart laid x.owner y.owner a b x.order.1 y.order.1 x.block y.block ne

  pub Filed-bounds : (i a : ℕ) → Filed buffer i a → (0 < a) × (a + 32 < 2 ^ 64)
  Filed-bounds i a x =
      let (some_place, low) = laid.placed x.owner x.order.1 in
      let b = x.block in
      (omega (arith, some_place, b.from), omega (arith, b.upto, low, size_least x.owner))
