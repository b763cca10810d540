-- ===== src/Core/Alloc/Operations.antt =====
-- `core_malloc` and `core_free` (core/alloc.c) keep the free lists.
use switch_os.Base.{
  ℕ, zero, suc, ◌+◌, ◌-◌, ◌≤◌, ◌<◌, ◌≡◌, ◌≢◌, refl, sym, ap, ◌∙◌, ◌⊎◌, inl, inr, true, false, ltb,
  leb, ◌==◌, Bool-cases, Option, none, some, arith,
}
use switch_os.Base.Bytes.{load64}
use switch_os.Core.Alloc.{
  Heap, allocators, block_size, set_head, size_loop, find_allocator_for_size, malloc_from,
  core_malloc,
}
use switch_os.Core.Alloc.Blocks.{Laid, Filed}
use switch_os.Core.Alloc.FreeList.{
  Lists, Tracked, NotFree, popped, popped-from, empty_list, rest_of_list,
}

-- The first allocator from `j` on whose blocks are large enough, or there is none.
abbrev pub Chosen : ℕ → ℕ → Option ℕ → Type 0
Chosen j size none = (i : ℕ) → j ≤ i → i < allocators → block_size i < size
Chosen j size (some i) =
    (i < allocators) × (size ≤ block_size i) × ((l : ℕ) → j ≤ l → l < i → block_size l < size)

size_loop-Chosen : (k j size : ℕ) → j + k ≡ allocators → Chosen j size (size_loop k j size)
unfolding size_loop
size_loop-Chosen zero j size e = λ i p q. absurd (omega (arith, e, p, q))
size_loop-Chosen (suc k) j size e = elim (Bool-cases (leb size (block_size j))) [
  | inl f ↦ rw f (omega arith, ground arith, λ l p q. absurd (omega (arith, p, q)))
  | inr f ↦
      rw f (later (size_loop k (suc j) size) (size_loop-Chosen k (suc j) size (omega arith)) f)
]
  where
    small :
        (l : ℕ)
        → j ≤ l
        → leb size (block_size j) ≡ false
        → (suc j ≤ l → block_size l < size)
        → block_size l < size
    small l p f g = elim (Bool-cases (l == j)) [
      | inl e ↦ let l≡j : l ≡ j = ground arith in rw l≡j (ground arith)
      | inr e ↦ g (ground arith)
    ]

    later :
        (o : Option ℕ) → Chosen (suc j) size o → leb size (block_size j) ≡ false → Chosen j size o
    later none c f = λ i p q. small i p f (λ r. c i r q)
    later (some i) (a, b, c) f = (a, b, λ l p q. small l p f (λ r. c l r q))

-- `find_allocator_for_size` finds the allocator with the least block size that holds `size` bytes,
-- or says that there is none.
pub find_allocator_for_size-Chosen : (size : ℕ) → Chosen 0 size (find_allocator_for_size size)
unfolding find_allocator_for_size
find_allocator_for_size-Chosen size = size_loop-Chosen allocators 0 size refl

module _ (buffer : ℕ → ℕ) (laid : Laid buffer) (h : Heap) (free : Lists) where
  -- The block comes from the list of allocator `i`, which serves the size, and is at least as large
  -- as the blocks of this allocator; it was free and is in no list of the new heap, memory has not changed, and the other free blocks are still free.
  pub record Allocated (size i ptr : ℕ) (h' : Heap) : Type 0 where
    pub chosen : Chosen 0 size (some i)
    pub was_first : (0 < free.count i) × (free.at i 0 ≡ ptr)
    pub block : Filed buffer i ptr
    pub tracked : Tracked buffer h' (popped i free)
    pub taken : NotFree buffer (popped i free) ptr
    pub same_mem : h'.mem ≡ h.mem

  module _ (t : Tracked buffer h free) where
    has_some : (i : ℕ) → i < allocators → (h.head i == 0) ≡ false → 0 < free.count i
    has_some i p f = elim (Bool-cases (ltb 0 (free.count i))) [
      | inl a ↦ ground arith
      | inr a ↦
          let none_left : free.count i ≡ 0 = ground arith in
          let null : h.head i ≡ 0 =
            (t.lists i p).first ∙ sym (ap (free.at i) none_left) ∙ (t.lists i p).last in
          absurd (ground (arith, null, f))
    ]

  popped-Tracked :
      (i : ℕ)
      → i < allocators
      → 0 < free.count i
      → Tracked buffer h free
      → Tracked buffer (set_head h i (load64 h.mem (h.head i))) (popped i free)
  popped-Tracked i p more t = record {
    lists = λ j q. elim (Bool-cases (j == i)) [
      | inl e ↦ let j≡i : j ≡ i = ground arith in rw (e, j≡i) (rest_of_list laid (t.lists i p) more)
      | inr e ↦ rw e (t.lists j q)
    ];
    unshared = λ j l k k' q r ne u v.
        let (n, n_in, e) = popped-from i j k free u in
        let (n', n'_in, e') = popped-from i l k' free v in
        λ same. t.unshared j l n n' q r ne n_in n'_in (sym e ∙ same ∙ e');
  }

  popped-NotFree :
      (i ptr : ℕ)
      → i < allocators
      → 0 < free.count i
      → free.at i 0 ≡ ptr
      → Tracked buffer h free
      → NotFree buffer (popped i free) ptr
  popped-NotFree i ptr p more e t j k q r = elim (Bool-cases (j == i)) [
    | inl f ↦
        let j≡i : j ≡ i = ground arith in
        let k_in : suc k < free.count i = inside k f j≡i r in
        rw (f, j≡i) (λ same. (t.lists i p).different 0 (suc k) (omega arith) k_in (e ∙ sym same))
    | inr f ↦
        let r' : k < free.count j = rw f at r in
        rw f (λ same. t.unshared i j 0 k p q (λ e. ground (arith, e, f)) more r' (e ∙ sym same))
  ]
    where
      inside :
          (k : ℕ) → (j == i) ≡ true → j ≡ i → k < (popped i free).count j → suc k < free.count i
      inside k f j≡i r =
          let r' : k < free.count j - 1 = rw f at r in
          let r'' : k < free.count i - 1 = rw j≡i at r' in omega (arith, r'')

  malloc_runs :
      (size i head : ℕ)
      → find_allocator_for_size size ≡ some i
      → h.head i ≡ head
      → (head == 0) ≡ false
      → core_malloc size h ≡ (head, set_head h i (load64 h.mem head))
  unfolding core_malloc malloc_from
  malloc_runs size i head e f g = rw (e, f, g)

  no_allocator_runs : (size : ℕ) → find_allocator_for_size size ≡ none → core_malloc size h ≡ (0, h)
  unfolding core_malloc malloc_from
  no_allocator_runs size e = rw e

  no_block_runs :
      (size i : ℕ)
      → find_allocator_for_size size ≡ some i
      → h.head i ≡ 0
      → core_malloc size h ≡ (0, h)
  unfolding core_malloc malloc_from
  no_block_runs size i e f = rw (e, f)

  -- `core_malloc` on a heap whose lists are in order either finds every block size too small and
  -- returns `NULL`, or finds the list of the least sufficient block size empty and returns `NULL`,
  -- with the heap unchanged in both cases, or it returns a block of at least that size that was free,
  -- is now in no list, and leaves all lists in order.
  pub core_malloc-Allocated :
      (size : ℕ)
      → Tracked buffer h free
      → ((core_malloc size h ≡ (0, h)) × Chosen 0 size none)
        ⊎ ((i : ℕ) × (((core_malloc size h ≡ (0, h)) × Chosen 0 size (some i) × (free.count i ≡ 0))
              ⊎ ((ptr : ℕ) × (h' : Heap) × (core_malloc size h ≡ (ptr, h'))
                  × (ptr ≢ 0)
                  × Allocated size i ptr h')))
  core_malloc-Allocated size t =
      by_choice (find_allocator_for_size size) refl (find_allocator_for_size-Chosen size)
    where
      by_choice :
          (o : Option ℕ)
          → find_allocator_for_size size ≡ o
          → Chosen 0 size o
          → ((core_malloc size h ≡ (0, h)) × Chosen 0 size none)
            ⊎ ((i : ℕ) × (((core_malloc size h ≡ (0, h))
                    × Chosen 0 size (some i)
                    × (free.count i ≡ 0))
                  ⊎ ((ptr : ℕ) × (h' : Heap) × (core_malloc size h ≡ (ptr, h'))
                      × (ptr ≢ 0)
                      × Allocated size i ptr h')))
      by_choice none e c = inl (no_allocator_runs size e, c)
      by_choice (some i) e c = inr (
        i,
        elim (Bool-cases (h.head i == 0)) [
          | inl f ↦
              let null : h.head i ≡ 0 = ground arith in
              inl (no_block_runs size i e null, c, empty_list laid (t.lists i c.0) null)
          | inr f ↦
              let l = t.lists i c.0 in
              let more : 0 < free.count i = has_some t i c.0 f in
              inr (
                h.head i,
                set_head h i (load64 h.mem (h.head i)),
                malloc_runs size i (h.head i) e refl f,
                ground arith,
                record {
                  chosen = c;
                  was_first = (more, sym l.first);
                  block = rw l.first (l.block 0 more);
                  tracked = popped-Tracked i c.0 more t;
                  taken = popped-NotFree i (h.head i) c.0 more (sym l.first) t;
                  same_mem = refl;
                },
              )
        ],
      )
