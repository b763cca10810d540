-- ===== src/Core/Alloc/FreeList.antt =====
-- The free lists of core/alloc.c as sequences of addresses, and the invariant of the heap.
use switch_os.Base.{
  ℕ, zero, suc, ◌+◌, ◌-◌, ◌≤◌, ◌<◌, ◌≡◌, ◌≢◌, refl, sym, ap, ◌∙◌, ◌⊎◌, inl, inr, true, ltb, ◌==◌,
  if◌then◌else◌, Bool-cases, arith,
}
use switch_os.Base.Bytes.{Bytes, load64, load64-same, Apart, Outside}
use switch_os.Core.Alloc.{Heap, allocators}
use switch_os.Core.Alloc.Blocks.{Laid, Filed, Filed-bounds}

-- The free lists: how many blocks that of an allocator has, and which, from its head on.
pub record Lists : Type 0 where
  pub count : ℕ → ℕ
  pub at : ℕ → ℕ → ℕ

module _ (buffer : ℕ → ℕ) where
  -- From `head` on memory links the `n` addresses of `at`, all of blocks that may lie in the list
  -- of allocator `i` and all different, and then `NULL`.
  pub record FreeList (i : ℕ) (m : Bytes) (head n : ℕ) (at : ℕ → ℕ) : Type 0 where
    pub first : head ≡ at 0
    pub last : at n ≡ 0
    pub link : (k : ℕ) → k < n → load64 m (at k) ≡ at (suc k)
    pub block : (k : ℕ) → k < n → Filed buffer i (at k)
    pub different : (k l : ℕ) → k < l → l < n → at k ≢ at l

  -- The heap's lists, which share no block.
  pub record Tracked (h : Heap) (free : Lists) : Type 0 where
    pub lists : (i : ℕ) → i < allocators → FreeList i h.mem (h.head i) (free.count i) (free.at i)
    pub unshared :
        (i j k l : ℕ)
        → i < allocators
        → j < allocators
        → i ≢ j
        → k < free.count i
        → l < free.count j
        → free.at i k ≢ free.at j l

  -- No free list has address `a`.
  abbrev pub NotFree : Lists → ℕ → Type 0
  NotFree free a = (i k : ℕ) → i < allocators → k < free.count i → free.at i k ≢ a

-- `a` in front of a sequence.
abbrev pub front : ℕ → (ℕ → ℕ) → ℕ → ℕ
front a at zero = a
front a at (suc k) = at k

-- The lists when the first block of list `i` is taken, and when `a` is put in front of it.
abbrev pub popped : ℕ → Lists → Lists
popped i free = record {
  count = λ j. if j == i then free.count j - 1 else free.count j;
  at = λ j. if j == i then (λ k. free.at j (suc k)) else free.at j;
}

abbrev pub pushed : ℕ → ℕ → Lists → Lists
pushed i a free = record {
  count = λ j. if j == i then suc (free.count j) else free.count j;
  at = λ j. if j == i then front a (free.at j) else free.at j;
}

-- Where an entry of the new lists stood in the old ones.
pub popped-from :
    (i j k : ℕ) (free : Lists)
    → k < (popped i free).count j
    → (k' : ℕ) × (k' < free.count j) × ((popped i free).at j k ≡ free.at j k')
popped-from i j k free p = elim (Bool-cases (j == i)) [
  | inl e ↦ let q : k < free.count j - 1 = rw e at p in (suc k, omega (arith, q), rw e refl)
  | inr e ↦ let q : k < free.count j = rw e at p in (k, q, rw e refl)
]

pub pushed-from :
    (i a j k : ℕ) (free : Lists)
    → k < (pushed i a free).count j
    → ((j ≡ i) × ((pushed i a free).at j k ≡ a))
      ⊎ ((k' : ℕ) × (k' < free.count j) × ((pushed i a free).at j k ≡ free.at j k'))
pushed-from i a j k free p = elim (Bool-cases (j == i)) [
  | inl e ↦ let j≡i : j ≡ i = ground arith in split k e j≡i p
  | inr e ↦ let q : k < free.count j = rw e at p in inr (k, q, rw e refl)
]
  where
    split :
        (k : ℕ)
        → (j == i) ≡ true
        → j ≡ i
        → k < (pushed i a free).count j
        → ((j ≡ i) × ((pushed i a free).at j k ≡ a))
          ⊎ ((k' : ℕ) × (k' < free.count j) × ((pushed i a free).at j k ≡ free.at j k'))
    split zero e j≡i p = inl (j≡i, rw e refl)
    split (suc k) e j≡i p =
        let q : suc k < suc (free.count j) = rw e at p in inr (k, omega (arith, q), rw e refl)

module _ {buffer : ℕ → ℕ} (laid : Laid buffer) where
  block_some : (i a : ℕ) → Filed buffer i a → a ≢ 0
  block_some i a x e = omega (arith, (Filed-bounds laid i a x).0, e)

  -- A list whose head is `NULL` is empty.
  pub empty_list :
      {i : ℕ} {m : Bytes} {head n : ℕ} {at : ℕ → ℕ}
      → FreeList buffer i m head n at
      → head ≡ 0
      → n ≡ 0
  empty_list {i = i} {n = n} {at = at} l e = elim (Bool-cases (ltb 0 n)) [
    | inl a ↦ absurd (block_some i (at 0) (l.block 0 (ground arith)) (sym l.first ∙ e))
    | inr a ↦ ground arith
  ]

  -- A list that is not empty without its first block.
  pub rest_of_list :
      {i : ℕ} {m : Bytes} {head n : ℕ} {at : ℕ → ℕ}
      → FreeList buffer i m head n at
      → 0 < n
      → FreeList buffer i m (load64 m head) (n - 1) (λ k. at (suc k))
  rest_of_list {m = m} {n = n} {at = at} l more = record {
    first = ap (load64 m) l.first ∙ l.link 0 more;
    last = ap at (omega (arith, more)) ∙ l.last;
    link = λ k p. l.link (suc k) (omega (arith, more, p));
    block = λ k p. l.block (suc k) (omega (arith, more, p));
    different = λ k k' p q. l.different (suc k) (suc k') (omega arith) (omega (arith, more, q));
  }

  -- Memory that is the same in the links of a list still holds it.
  pub list_same :
      {i : ℕ} {m m' : Bytes} {head n : ℕ} {at : ℕ → ℕ}
      → ((k : ℕ) → k < n → (x : ℕ) → at k ≤ x → x < at k + 8 → m' x ≡ m x)
      → FreeList buffer i m head n at
      → FreeList buffer i m' head n at
  list_same {m = m} {m' = m'} {at = at} same l = record {
    first = l.first;
    last = l.last;
    link = λ k p. load64-same m m' (at k) (same k p) ∙ l.link k p;
    block = l.block;
    different = l.different;
  }

  -- Memory that changed only in a block which is not in the list still holds the list.
  pub list_elsewhere :
      {i : ℕ} {m m' : Bytes} {head n : ℕ} {at : ℕ → ℕ} (a : ℕ)
      → ((k : ℕ) → k < n → Apart (at k) 8 a 8)
      → ((x : ℕ) → Outside a 8 x → m' x ≡ m x)
      → FreeList buffer i m head n at
      → FreeList buffer i m' head n at
  list_elsewhere a apart same l = list_same (λ k p x q r. same x (omega (arith, apart k p, q, r))) l

  -- A list with a new block in front.
  pub longer_list :
      {i : ℕ} {m : Bytes} {head n : ℕ} {at : ℕ → ℕ} (a : ℕ)
      → Filed buffer i a
      → ((k : ℕ) → k < n → at k ≢ a)
      → load64 m a ≡ head
      → FreeList buffer i m head n at
      → FreeList buffer i m a (suc n) (front a at)
  longer_list {i = i} {m = m} {n = n} {at = at} a block new link l = record {
    first = refl;
    last = l.last;
    link = links;
    block = blocks;
    different = differ;
  }
    where
      links : (k : ℕ) → k < suc n → load64 m (front a at k) ≡ front a at (suc k)
      links zero p = link ∙ l.first
      links (suc k) p = l.link k (omega arith)

      blocks : (k : ℕ) → k < suc n → Filed buffer i (front a at k)
      blocks zero p = block
      blocks (suc k) p = l.block k (omega arith)

      differ : (k l' : ℕ) → k < l' → l' < suc n → front a at k ≢ front a at l'
      differ zero (suc l') p q = λ e. new l' (omega arith) (sym e)
      differ (suc k) (suc l') p q = l.different k l' (omega arith) (omega arith)
      differ k zero p q = absurd (omega arith)
