-- ===== src/Core/Alloc/Freeing.antt =====
-- `core_free` (core/alloc.c) puts a block back.
use switch_os.Base.{
  ℕ, ◌+◌, ◌^◌, ◌≤◌, ◌<◌, ◌≡◌, ◌≢◌, sym, ap, ◌∙◌, ◌⊎◌, inl, inr, ltb, ◌==◌, Bool-cases, some, arith,
}
use switch_os.Base.Bytes.{store, load64-store, store-Outside, Apart, Outside}
use switch_os.Core.Alloc.{
  Heap, allocators, set_head, set_next, find_allocator_for_allocation, free_to, core_malloc,
  core_free,
}
use switch_os.Core.Alloc.Blocks.{
  Laid, IsBlock, Found, find_allocator_for_allocation-Found, Filed, Filed-Apart, Filed-bounds,
}
use switch_os.Core.Alloc.FreeList.{
  Lists, FreeList, Tracked, NotFree, popped, pushed, pushed-from, list_same, list_elsewhere,
  longer_list,
}
use switch_os.Core.Alloc.Operations.{Chosen, Allocated, core_malloc-Allocated}

module _ (buffer : ℕ → ℕ) (laid : Laid buffer) (h : Heap) (free : Lists) where
  head_small : (i : ℕ) → i < allocators → Tracked buffer h free → h.head i < 2 ^ 64
  head_small i p t = elim (Bool-cases (ltb 0 (free.count i))) [
    | inl a ↦
        let x = (t.lists i p).block 0 (ground arith) in
        let e = (t.lists i p).first in omega (arith, e, (Filed-bounds laid i _ x).1)
    | inr a ↦
        let e : 0 ≡ free.count i = ground arith in
        let null : h.head i ≡ 0 = (t.lists i p).first ∙ ap (free.at i) e ∙ (t.lists i p).last in
        omega (arith, null)
  ]

  -- The block is the first of its allocator's list, all lists are in order, and memory has changed
  -- in nothing but the block's link.
  pub record Freed (i ptr : ℕ) (h' : Heap) : Type 0 where
    pub tracked : Tracked buffer h' (pushed i ptr free)
    pub elsewhere : (x : ℕ) → Outside ptr 8 x → h'.mem x ≡ h.mem x

  free_runs :
      (i ptr : ℕ)
      → find_allocator_for_allocation buffer ptr ≡ some i
      → core_free buffer ptr h ≡ set_head (set_next h ptr (h.head i)) i ptr
  unfolding core_free free_to
  free_runs i ptr e = rw e

  pushed_list :
      (i ptr : ℕ)
      → i < allocators
      → Filed buffer i ptr
      → NotFree buffer free ptr
      → Tracked buffer h free
      → (j : ℕ) → j < allocators
      → FreeList buffer j
          (store 8 h.mem ptr (h.head i))
          ((set_head (set_next h ptr (h.head i)) i ptr).head j)
          ((pushed i ptr free).count j)
          ((pushed i ptr free).at j)
  pushed_list i ptr p block new t j q =
      let m' = store 8 h.mem ptr (h.head i) in
      let kept : FreeList buffer j m' (h.head j) (free.count j) (free.at j) =
        list_elsewhere laid ptr
          (λ k r.
            near (
              Filed-Apart laid j i (free.at j k) ptr ((t.lists j q).block k r) block (new j k q r)))
          (store-Outside 8 h.mem ptr (h.head i)) (t.lists j q) in
      elim (Bool-cases (j == i)) [
        | inl e ↦
            let j≡i : j ≡ i = ground arith in
            let kept' : FreeList buffer i m' (h.head i) (free.count i) (free.at i) =
              rw j≡i at kept in
            rw (e, j≡i)
              (longer_list laid ptr block (λ k r. new i k p r)
                (load64-store h.mem ptr (h.head i) (head_small i p t)) kept')
        | inr e ↦ rw e kept
      ]
    where
      near : {a b : ℕ} → Apart a 32 b 32 → Apart a 8 b 8
      near s = omega (arith, s)

  pushed-Tracked :
      (i ptr : ℕ)
      → i < allocators
      → Filed buffer i ptr
      → NotFree buffer free ptr
      → Tracked buffer h free
      → Tracked buffer (set_head (set_next h ptr (h.head i)) i ptr) (pushed i ptr free)
  pushed-Tracked i ptr p block new t = record {
    lists = λ j q. pushed_list i ptr p block new t j q;
    unshared = λ j l k k' q r ne u v.
        apart_lists i ptr j l k k' q r ne new t (pushed-from i ptr j k free u)
          (pushed-from i ptr l k' free v);
  }
    where
      apart_lists :
          (i ptr j l k k' : ℕ)
          → j < allocators
          → l < allocators
          → j ≢ l
          → NotFree buffer free ptr
          → Tracked buffer h free
          → ((j ≡ i) × ((pushed i ptr free).at j k ≡ ptr))
            ⊎ ((n : ℕ) × (n < free.count j) × ((pushed i ptr free).at j k ≡ free.at j n))
          → ((l ≡ i) × ((pushed i ptr free).at l k' ≡ ptr))
            ⊎ ((n : ℕ) × (n < free.count l) × ((pushed i ptr free).at l k' ≡ free.at l n))
          → (pushed i ptr free).at j k ≢ (pushed i ptr free).at l k'
      apart_lists i ptr j l k k' q r ne new t (inl (e, _)) (inl (f, _)) = absurd (ne (e ∙ sym f))
      apart_lists i ptr j l k k' q r ne new t (inl (_, e)) (inr (n, p, f)) =
          λ same. new l n r p (sym f ∙ sym same ∙ e)
      apart_lists i ptr j l k k' q r ne new t (inr (n, p, f)) (inl (_, e)) =
          λ same. new j n q p (sym f ∙ same ∙ e)
      apart_lists i ptr j l k k' q r ne new t (inr (n, p, f)) (inr (n', p', f')) =
          λ same. t.unshared j l n n' q r ne p p' (sym f ∙ same ∙ f')

  free_to_list :
      (i ptr : ℕ)
      → i < allocators
      → Filed buffer i ptr
      → find_allocator_for_allocation buffer ptr ≡ some i
      → NotFree buffer free ptr
      → Tracked buffer h free
      → Freed i ptr (core_free buffer ptr h)
  free_to_list i ptr p block found new t = rw (free_runs i ptr found) (record {
    tracked = pushed-Tracked i ptr p block new t;
    elsewhere = store-Outside 8 h.mem ptr (h.head i);
  })

  -- `core_free` of a block which is in no list puts it in front of the list of its own allocator,
  -- or, when the block begins where the buffer of an earlier allocator ends, in front of the list
  -- of an earlier one, whose blocks are smaller; either way all lists are in order, and memory has
  -- changed only in the block's link.
  pub core_free-Freed :
      (i ptr : ℕ)
      → i < allocators
      → IsBlock buffer i ptr
      → NotFree buffer free ptr
      → Tracked buffer h free
      → (o : ℕ) × Found laid o i ptr × Freed o ptr (core_free buffer ptr h)
  core_free-Freed i ptr p block new t =
      let (o, run, found) = find_allocator_for_allocation-Found laid i ptr p block in
      (
        o,
        found,
        free_to_list o ptr (omega (arith, found))
            (record {
              owner = i;
              order = (omega (arith, found), p);
              block = block;
              goes_to = o;
              goes = (omega arith, run);
            })
            run new t,
      )

  -- The same of a block that came from the list of allocator `i`.
  pub core_free-Filed :
      (i ptr : ℕ)
      → i < allocators
      → (x : Filed buffer i ptr) → NotFree buffer free ptr
      → Tracked buffer h free
      → Freed x.goes_to ptr (core_free buffer ptr h)
  core_free-Filed i ptr p x new t =
      let (le, run) = x.goes in
      let order = x.order in
      free_to_list x.goes_to ptr (omega (arith, le))
        (record {
          owner = x.owner;
          order = (omega (arith, le, order), x.order.1);
          block = x.block;
          goes_to = x.goes_to;
          goes = (omega arith, run);
        })
        run new t

module _ (buffer : ℕ → ℕ) (laid : Laid buffer) (h h' h'' : Heap) (free : Lists) where
  given_back :
      (size i ptr : ℕ)
      → Tracked buffer h free
      → (got : Allocated buffer laid h free size i ptr h') → ((j : ℕ) → h''.head j ≡ h'.head j)
      → ((x : ℕ) → Outside ptr 32 x → h''.mem x ≡ h'.mem x)
      → Tracked buffer (core_free buffer ptr h'') (pushed got.block.goes_to ptr (popped i free))
  given_back size i ptr t got same_head same =
      (core_free-Filed buffer laid h'' (popped i free) i ptr got.chosen.0 got.block got.taken
        (record {
          lists = λ j q. rw (same_head j) (kept j q);
          unshared = got.tracked.unshared;
        })).tracked
    where
      in_block : (a b x : ℕ) → Apart a 32 b 32 → a ≤ x → x < a + 8 → Outside b 32 x
      in_block a b x s p q = omega (arith, s, p, q)

      kept :
          (j : ℕ)
          → j < allocators
          → FreeList buffer j h''.mem (h'.head j) ((popped i free).count j) ((popped i free).at j)
      kept j q =
          list_same laid
            (λ k r x l u. same x (
              in_block _ ptr x
                (Filed-Apart laid j i _ ptr ((got.tracked.lists j q).block k r) got.block
                  (got.taken j k q r))
                l u))
            (got.tracked.lists j q)

  -- A block that `core_malloc` handed out, on a heap whose lists are in order, can be given back:
  -- whatever was written in the block's first 32 bytes since, `core_free` of it leaves all lists in
  -- order, with the block first in the list it came from, or in that of an earlier allocator, where
  -- it is no smaller than the blocks there.
  pub core_free-core_malloc :
      (size ptr : ℕ)
      → Tracked buffer h free
      → core_malloc size h ≡ (ptr, h')
      → ptr ≢ 0
      → ((j : ℕ) → h''.head j ≡ h'.head j)
      → ((x : ℕ) → Outside ptr 32 x → h''.mem x ≡ h'.mem x)
      → (i o : ℕ) × Chosen 0 size (some i)
        × (free.at i 0 ≡ ptr)
        × (o ≤ i)
        × Tracked buffer (core_free buffer ptr h'') (pushed o ptr (popped i free))
  core_free-core_malloc size ptr t e given same_head same =
      elim (core_malloc-Allocated buffer laid h free size t) [
        | inl (f, c) ↦ absurd (given (ap (λ r. r.0) (sym e ∙ f)))
        | inr (i, inl (f, c, none_free)) ↦ absurd (given (ap (λ r. r.0) (sym e ∙ f)))
        | inr (i, inr (p, k, f, ne, got)) ↦
            let same_ptr : p ≡ ptr = ap (λ r. r.0) (sym f ∙ e) in
            let same_heap : k ≡ h' = ap (λ r. r.1) (sym f ∙ e) in
            let got' : Allocated buffer laid h free size i ptr h' =
              rw (same_ptr, same_heap) at got in
            (
              i,
              got'.block.goes_to,
              got'.chosen,
              got'.was_first.1,
              got'.block.goes.0,
              given_back size i ptr t got' same_head same,
            )
      ]
