-- ===== src/Core/Alloc/Ready.antt =====
-- All allocators after `core_init_allocators` (core/alloc.c).
use switch_os.Base.{
  ℕ, zero, suc, ◌+◌, ◌-◌, ◌/◌, ◌%◌, ◌≤◌, ◌<◌, ◌≡◌, ◌≢◌, refl, sym, ◌∙◌, ◌⊎◌, inl, inr, true, ◌==◌,
  Bool-cases, arith,
}
use switch_os.Base.Action.{ok}
use switch_os.Base.Bytes.{Bytes, Apart, Outside}
use switch_os.Core.Alloc.{
  Heap, allocators, block_size, buf_size, set_head, chain_loop, init_loop, core_init_allocators,
}
use switch_os.Core.Alloc.Blocks.{Laid, IsBlock, size_least, one_allocator}
use switch_os.Core.Alloc.FreeList.{Lists, FreeList, Tracked, list_same}
use switch_os.Core.Alloc.Init.{Chained, Full, chain_loop-Full, fuel_enough}

module _ (buffer : ℕ → ℕ) (laid : Laid buffer) where
  -- All lists are in order, and hold exactly the blocks of their allocators.
  pub record Ready (h : Heap) (free : Lists) : Type 0 where
    pub tracked : Tracked buffer h free
    pub own : (i k : ℕ) → i < allocators → k < free.count i → IsBlock buffer i (free.at i k)
    pub all :
        (i a : ℕ)
        → i < allocators
        → IsBlock buffer i a
        → (k : ℕ) × (k < free.count i) × (free.at i k ≡ a)

  -- Allocator `j` has all its blocks in its list.
  abbrev Complete : Heap → (j : ℕ) → j < allocators → Type 0
  Complete h j p =
      (n : ℕ) × (at : ℕ → ℕ) × Chained buffer laid j p (buffer j + buf_size j) h.mem (h.head j) n at

  abbrev Done : ℕ → Heap → Type 0
  Done i h = (j : ℕ) (p : j < allocators) → j < i → Complete h j p

  empty-Chained :
      (i : ℕ) (p : i < allocators) (m : Bytes) (head : ℕ)
      → head ≡ 0
      → Chained buffer laid i p (buffer i) m head 0 (λ k. 0)
  empty-Chained i p m head e = record {
    list = record {
      first = e;
      last = refl;
      link = λ k q. absurd (omega (arith, q));
      block = λ k q. absurd (omega (arith, q));
      different = λ k l q r. absurd (omega (arith, r));
    };
    own = λ k q. absurd (omega (arith, q));
    below = λ k q. absurd (omega (arith, q));
    all = λ a x q. absurd (omega (arith, x.from, q));
  }

  still-Complete :
      (i j : ℕ) (p : i < allocators) (q : j < allocators) (h h' : Heap)
      → j ≢ i
      → h'.head j ≡ h.head j
      → ((x : ℕ) → Outside (buffer i) (buf_size i) x → h'.mem x ≡ h.mem x)
      → Complete h j q
      → Complete h' j q
  still-Complete i j p q h h' ne head same (n, at, c) = (
    n,
    at,
    record {
      list = rw head (
          list_same laid
            (λ k r x l u.
              same x (away x (laid.spaced j i q p ne) (c.own k r).from (c.own k r).upto l u))
            c.list);
      own = c.own;
      below = c.below;
      all = c.all;
    },
  )
    where
      away :
          {a : ℕ} (x : ℕ)
          → Apart (buffer j) (buf_size j) (buffer i) (buf_size i)
          → buffer j ≤ a
          → a + block_size j ≤ buffer j + buf_size j
          → a ≤ x
          → x < a + 8
          → Outside (buffer i) (buf_size i) x
      away x s f u l r = omega (arith, s, f, u, l, r, size_least j)

  init_runs :
      (k i : ℕ) (h h₁ h' : Heap)
      → chain_loop buffer (buf_size i / block_size i + 1) i (buffer i) (set_head h i 0)
        ≡ (ok tt, h₁)
      → init_loop buffer k (suc i) h₁ ≡ (ok tt, h')
      → init_loop buffer (suc k) i h ≡ (ok tt, h')
  unfolding init_loop
  init_runs k i h h₁ h' e f = rw (e, f)

  init_loop-Done :
      (k i : ℕ) (h : Heap)
      → i + k ≡ allocators
      → Done i h
      → (h' : Heap) × (init_loop buffer k i h ≡ (ok tt, h')) × Done allocators h'
  unfolding init_loop
  init_loop-Done zero i h e done = (h, refl, λ j p q. done j p (omega (arith, e, q)))
  init_loop-Done (suc k) i h e done =
      let p : i < allocators = omega arith in
      let here : (i == i) ≡ true = ground arith in
      let zero_at : (buffer i - buffer i) % block_size i ≡ 0 = at_start i in
      let (h₁, run, full) =
        chain_loop-Full buffer laid i p (buf_size i / block_size i + 1) (buffer i) (set_head h i 0)
          (set_head h i 0) 0 (λ k. 0) (omega arith) zero_at (omega arith)
          (omega (arith, fuel_enough i)) (empty-Chained i p h.mem _ (rw here)) (λ j ne. refl)
          (λ x o. refl) in
      let (h', rest, done') = init_loop-Done k (suc i) h₁ (omega arith) (next i h h₁ p full done) in
      (h', init_runs k i h h₁ h' run rest, done')
    where
      at_start : (i : ℕ) → (buffer i - buffer i) % block_size i ≡ 0
      at_start i = ground arith

      next :
          (i : ℕ) (h h₁ : Heap) (p : i < allocators)
          → Full buffer laid i p (set_head h i 0) h₁
          → Done i h
          → Done (suc i) h₁
      next i h h₁ p full done j q lt = elim (Bool-cases (j == i)) [
        | inl f ↦
            let j≡i : j ≡ i = ground arith in
            let c = full.chained in
            (
              full.n,
              full.at,
              record {
                list = rw j≡i c.list;
                own = rw j≡i c.own;
                below = rw j≡i c.below;
                all = rw j≡i c.all;
              },
            )
        | inr f ↦
            still-Complete i j p q h h₁ (ground (arith, f))
              (full.other_heads j (ground (arith, f)) ∙ rw f) full.outside
              (done j q (ground (arith, f, lt)))
      ]

  -- The lists of a heap where all allocators are done.
  count_at : {h : Heap} → Done allocators h → (j : ℕ) → (j < allocators) ⊎ (allocators ≤ j) → ℕ
  count_at done j (inl p) = (done j p p).0
  count_at done j (inr p) = 0

  addresses_at :
      {h : Heap} → Done allocators h → (j : ℕ) → (j < allocators) ⊎ (allocators ≤ j) → ℕ → ℕ
  addresses_at done j (inl p) = (done j p p).1
  addresses_at done j (inr p) = λ k. 0

  side : (j : ℕ) → (j < allocators) ⊎ (allocators ≤ j)
  side j = omega arith

  all_lists : {h : Heap} → Done allocators h → Lists
  all_lists done = record {
    count = λ j. count_at done j (side j);
    at = λ j. addresses_at done j (side j);
  }

  Done-Ready : (h : Heap) (done : Done allocators h) → Ready h (all_lists done)
  unfolding all_lists count_at addresses_at
  Done-Ready h done = record {
    tracked = record {
      lists = λ j p. tracked_at j p (side j);
      unshared = λ i j k l p q ne u v same.
          one_owner i j _ _ p q ne same (own_at i k p (side i) u) (own_at j l q (side j) v);
    };
    own = λ j k p q. own_at j k p (side j) q;
    all = λ j a p x. all_at j a p x (side j);
  }
    where
      tracked_at :
          (j : ℕ)
          → j < allocators
          → (d : (j < allocators) ⊎ (allocators ≤ j))
          → FreeList buffer j h.mem (h.head j) (count_at done j d) (addresses_at done j d)
      tracked_at j p (inl q) = (done j q q).2.list
      tracked_at j p (inr q) = absurd (omega (arith, p, q))

      one_owner :
          (i j a b : ℕ)
          → i < allocators
          → j < allocators
          → i ≢ j
          → a ≡ b
          → IsBlock buffer i a
          → ¬ IsBlock buffer j b
      one_owner i j a b p q ne e x y =
          let y' : IsBlock buffer j a = rw (sym e) at y in one_allocator laid i j a p q ne x y'

      own_at :
          (j k : ℕ)
          → j < allocators
          → (d : (j < allocators) ⊎ (allocators ≤ j)) → k < count_at done j d
          → IsBlock buffer j (addresses_at done j d k)
      own_at j k p (inl q) r = (done j q q).2.own k r
      own_at j k p (inr q) r = absurd (omega (arith, p, q))

      all_at :
          (j a : ℕ)
          → j < allocators
          → IsBlock buffer j a
          → (d : (j < allocators) ⊎ (allocators ≤ j))
          → (k : ℕ) × (k < count_at done j d) × (addresses_at done j d k ≡ a)
      all_at j a p x (inl q) = (done j q q).2.all a x (omega (arith, x.upto, size_least j))
      all_at j a p x (inr q) = absurd (omega (arith, p, q))

  -- `core_init_allocators` ends within its fuel, whatever memory and the heads held, with all free
  -- lists in order and in the list of each allocator exactly the blocks of its buffer.
  pub core_init_allocators-Ready :
      (h : Heap)
      → (h' : Heap) × (core_init_allocators buffer h ≡ (ok tt, h')) × (free : Lists) × Ready h' free
  unfolding core_init_allocators
  core_init_allocators-Ready h =
      let (h', run, done) =
        init_loop-Done allocators 0 h refl (λ j p q. absurd (omega (arith, q))) in
      (h', run, all_lists done, Done-Ready h' done)
