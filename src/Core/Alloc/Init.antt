-- ===== src/Core/Alloc/Init.antt =====
-- `core_init_allocators` (core/alloc.c) puts every block in its list.
use switch_os.Base.{
  ℕ, zero, suc, ◌+◌, ◌-◌, ◌*◌, ◌/◌, ◌%◌, ◌^◌, ◌≤◌, ◌<◌, ◌≡◌, ◌≢◌, ap, ◌∙◌, ◌⊎◌, inl, inr, true,
  false, ltb, ◌==◌, Bool-cases, arith,
}
use switch_os.Base.Action.{ok}
use switch_os.Base.Bytes.{Bytes, load64-store, store-Outside, Apart, Outside}
use switch_os.Core.Alloc.{Heap, allocators, block_size, buf_size, set_head, set_next, chain_loop}
use switch_os.Core.Alloc.Blocks.{
  Laid, IsBlock, IsBlock-Filed, blocks-Apart, multiples-Apart, size_known, size_least,
}
use switch_os.Core.Alloc.FreeList.{FreeList, front, list_elsewhere, longer_list}

pub fuel_enough : (i : ℕ) → buf_size i < (buf_size i / block_size i + 1) * block_size i
fuel_enough i = ground arith

-- Buffers are whole numbers of blocks.
block_whole : (i x : ℕ) → x % block_size i ≡ 0 → x < buf_size i → x + block_size i ≤ buf_size i
block_whole i x e p = ground (arith, e)

next_whole :
    (n x : ℕ)
    → (n ≡ 32) ⊎ ((n ≡ 64) ⊎ ((n ≡ 128) ⊎ ((n ≡ 256) ⊎ (n ≡ 8192))))
    → x % n ≡ 0
    → (x + n) % n ≡ 0
next_whole n x known e = ground (arith, known, e)

module _ (buffer : ℕ → ℕ) (laid : Laid buffer) (i : ℕ) (i<5 : i < allocators) where
  -- The blocks below `addr`, and no others, are in the list.
  pub record Chained (addr : ℕ) (m : Bytes) (head n : ℕ) (at : ℕ → ℕ) : Type 0 where
    pub list : FreeList buffer i m head n at
    pub own : (k : ℕ) → k < n → IsBlock buffer i (at k)
    pub below : (k : ℕ) → k < n → at k < addr
    pub all : (a : ℕ) → IsBlock buffer i a → a < addr → (k : ℕ) × (k < n) × (at k ≡ a)

  abbrev stop : ℕ
  stop = buffer i + buf_size i

  -- A heap that differs from `h` only in allocator `i`, whose list has all blocks.
  pub record Full (h h' : Heap) : Type 0 where
    pub n : ℕ
    pub at : ℕ → ℕ
    pub chained : Chained (buffer i + buf_size i) h'.mem (h'.head i) n at
    pub other_heads : (j : ℕ) → j ≢ i → h'.head j ≡ h.head j
    pub outside : (x : ℕ) → Outside (buffer i) (buf_size i) x → h'.mem x ≡ h.mem x

  abbrev linked : Heap → ℕ → Heap
  linked h addr = set_next (set_head h i addr) addr (h.head i)

  chain_runs :
      (fuel addr : ℕ) (h h' : Heap)
      → ltb addr (buffer i + buf_size i) ≡ true
      → chain_loop buffer fuel i (addr + block_size i) (linked h addr) ≡ (ok tt, h')
      → chain_loop buffer (suc fuel) i addr h ≡ (ok tt, h')
  unfolding chain_loop
  chain_runs fuel addr h h' e f = rw (e, f)

  chain_ends :
      (fuel addr : ℕ) (h : Heap)
      → ltb addr (buffer i + buf_size i) ≡ false
      → chain_loop buffer (suc fuel) i addr h ≡ (ok tt, h)
  unfolding chain_loop
  chain_ends fuel addr h e = rw e

  head_small :
      (addr : ℕ) (m : Bytes) (head n : ℕ) (at : ℕ → ℕ)
      → addr ≤ buffer i + buf_size i
      → Chained addr m head n at
      → head < 2 ^ 64
  head_small addr m head n at le c = elim (Bool-cases (ltb 0 n)) [
    | inl a ↦
        let e = c.list.first in
        let b = c.below 0 (ground arith) in omega (arith, e, b, le, (laid.placed i i<5).1)
    | inr a ↦
        let e : 0 ≡ n = ground arith in
        let null : head ≡ 0 = c.list.first ∙ ap at e ∙ c.list.last in omega (arith, null)
  ]

  module _ (addr : ℕ) (from : buffer i ≤ addr) (whole : (addr - buffer i) % block_size i ≡ 0)
      (more : addr < buffer i + buf_size i) where
    addr-IsBlock : IsBlock buffer i addr
    addr-IsBlock = record {
      from = from;
      upto =
          let p = block_whole i (addr - buffer i) whole (omega (arith, from, more)) in
          omega (arith, p, from);
      whole = whole;
    }

    -- A block below the next address is below this one or here.
    below_or_here : (a : ℕ) → IsBlock buffer i a → a < addr + block_size i → (a < addr) ⊎ (addr ≡ a)
    below_or_here a x p = elim (Bool-cases (addr == a)) [
      | inl e ↦ inr (ground arith)
      | inr e ↦
          let ne : addr - buffer i ≢ a - buffer i = λ f. differ f e x.from in
          let gap =
            multiples-Apart (block_size i) (addr - buffer i) (a - buffer i) (size_known i) whole
              x.whole ne in
          inl (omega (arith, gap, p, from, x.from, size_least i))
    ]
      where
        differ : addr - buffer i ≡ a - buffer i → (addr == a) ≡ false → buffer i ≤ a → ⊥
        differ f e le = let g : addr ≡ a = omega (arith, f, from, le) in ground (arith, g, e)

    linked-Chained :
        (h : Heap) (n : ℕ) (at : ℕ → ℕ)
        → Chained addr h.mem (h.head i) n at
        → Chained (addr + block_size i) (linked h addr).mem addr (suc n) (front addr at)
    linked-Chained h n at c = record {
      list =
          longer_list laid addr (IsBlock-Filed laid i addr i<5 addr-IsBlock)
            (λ k p e. omega (arith, c.below k p, e))
            (load64-store h.mem addr (h.head i)
              (head_small addr h.mem (h.head i) n at (omega arith) c))
            (list_elsewhere laid addr
              (λ k p. near (
                blocks-Apart laid i i (at k) addr i<5 i<5 (c.own k p) addr-IsBlock
                  (λ e. omega (arith, c.below k p, e))))
              (store-Outside 8 h.mem addr (h.head i)) c.list);
      own = own;
      below = below;
      all = λ a x p. elim (below_or_here a x p) [
        | inr e ↦ (0, omega arith, e)
        | inl q ↦ let (k, r, e) = c.all a x q in (suc k, omega (arith, r), e)
      ];
    }
      where
        near : {a b : ℕ} → Apart a 32 b 32 → Apart a 8 b 8
        near s = omega (arith, s)

        own : (k : ℕ) → k < suc n → IsBlock buffer i (front addr at k)
        own zero p = addr-IsBlock
        own (suc k) p = c.own k (omega arith)

        below : (k : ℕ) → k < suc n → front addr at k < addr + block_size i
        below zero p = omega (arith, size_least i)
        below (suc k) p = omega (arith, c.below k (omega arith))

  abbrev Ends : ℕ → ℕ → Heap → Heap → Type 0
  Ends fuel addr h₀ h = (h' : Heap) × (chain_loop buffer fuel i addr h ≡ (ok tt, h')) × Full h₀ h'

  pub chain_loop-Full :
      (fuel addr : ℕ) (h₀ h : Heap) (n : ℕ) (at : ℕ → ℕ)
      → buffer i ≤ addr
      → (addr - buffer i) % block_size i ≡ 0
      → addr ≤ buffer i + buf_size i
      → buffer i + buf_size i < addr + fuel * block_size i
      → Chained addr h.mem (h.head i) n at
      → ((j : ℕ) → j ≢ i → h.head j ≡ h₀.head j)
      → ((x : ℕ) → Outside (buffer i) (buf_size i) x → h.mem x ≡ h₀.mem x)
      → Ends fuel addr h₀ h
  chain_loop-Full zero addr h₀ h n at from whole le enough c heads out =
      absurd (omega (arith, le, enough))
  chain_loop-Full (suc fuel) addr h₀ h n at from whole le enough c heads out =
      elim (Bool-cases (ltb addr (buffer i + buf_size i))) [
        | inr e ↦
            let at_end : addr ≡ buffer i + buf_size i = ground arith in
            (
              h,
              chain_ends fuel addr h e,
              record {
                n = n;
                at = at;
                chained = rw at_end at c;
                other_heads = heads;
                outside = out;
              },
            )
        | inl e ↦
            let more : addr < buffer i + buf_size i = ground arith in
            let block = addr-IsBlock addr from whole more in
            let here : (i == i) ≡ true = ground arith in
            let c' = linked-Chained addr from whole more h n at c in
            let (h', run, full) =
              chain_loop-Full fuel (addr + block_size i) h₀ (linked h addr) (suc n) (front addr at)
                (omega (arith, from)) (next_at addr from whole) block.upto (omega (arith, enough))
                (rw here c')
                (λ j ne. let o : (j == i) ≡ false = ground (arith, ne) in rw o (heads j ne))
                (λ x o.
                  store-Outside 8 h.mem addr (h.head i) x
                    (omega (arith, o, from, block.upto, size_least i))
                  ∙ out x o) in
            (h', chain_runs fuel addr h h' e run, full)
      ]
    where
      next_at :
          (addr : ℕ)
          → buffer i ≤ addr
          → (addr - buffer i) % block_size i ≡ 0
          → (addr + block_size i - buffer i) % block_size i ≡ 0
      next_at addr from whole =
          ap (λ x. x % block_size i) (omega (arith, from))
          ∙ next_whole (block_size i) (addr - buffer i) (size_known i) whole
