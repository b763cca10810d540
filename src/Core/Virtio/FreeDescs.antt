-- ===== src/Core/Virtio/FreeDescs.antt =====
-- The list of free descriptors of core/drivers/virtio/virtio_queue.c as a sequence of indices, and
-- that taking and giving back a descriptor keeps it.
use switch_os.Base.{ℕ, zero, suc, ◌<◌, ◌≡◌, ◌≢◌, refl, sym, ◌∙◌, true, false, ltb, leb, ◌==◌, arith}
use switch_os.Base.Action.{ok, invalid}
use switch_os.Core.Virtio.{
  Queue, Desc, virtio_invalid_free_head, virtio_invalid_desc, put_desc, set_free_head,
  queue_desc_at, set_desc, alloc_queue_desc, free_queue_desc,
}

-- From `free_head` on the descriptors' `next` fields link the `n` indices of `at`, all in the
-- table and all different, and then `VIRTIO_INVALID_FREE_HEAD`.
pub record FreeDescs (q : Queue) (n : ℕ) (at : ℕ → ℕ) : Type 0 where
  pub short : q.size < virtio_invalid_desc
  pub first : q.free_head ≡ at 0
  pub last : at n ≡ virtio_invalid_free_head
  pub link : (k : ℕ) → k < n → (q.desc (at k)).next ≡ at (suc k)
  pub inside : (k : ℕ) → k < n → at k < q.size
  pub different : (k l : ℕ) → k < l → l < n → at k ≢ at l

abbrev pub front : ℕ → (ℕ → ℕ) → ℕ → ℕ
front i at zero = i
front i at (suc k) = at k

-- Descriptors outside the list may change.
pub FreeDescs-put_desc :
    {q : Queue} {n : ℕ} {at : ℕ → ℕ} (i : ℕ) (f : Desc → Desc)
    → ((k : ℕ) → k < n → at k ≢ i)
    → FreeDescs q n at
    → FreeDescs (put_desc i f q) n at
FreeDescs-put_desc {q = q} {n = n} {at = at} i f other l = record {
  short = l.short;
  first = l.first;
  last = l.last;
  link = λ k p. let e : (at k == i) ≡ false = ground (arith, other k p) in rw e (l.link k p);
  inside = l.inside;
  different = l.different;
}

-- The queue after its first free descriptor is taken.
pub record Taken (q : Queue) (n : ℕ) (at : ℕ → ℕ) : Type 0 where
  pub runs : alloc_queue_desc q ≡ (ok (at 0), set_free_head (at 1) q)
  pub rest : FreeDescs (set_free_head (at 1) q) n (λ k. at (suc k))
  pub taken : (k : ℕ) → k < n → at (suc k) ≢ at 0

alloc_runs :
    (q : Queue) (i j : ℕ)
    → q.free_head ≡ i
    → (i == virtio_invalid_free_head) ≡ false
    → ltb i q.size ≡ true
    → (q.desc i).next ≡ j
    → alloc_queue_desc q ≡ (ok i, set_free_head j q)
unfolding alloc_queue_desc queue_desc_at
alloc_runs q i j e f g h = rw (e, f, g, h)

pub alloc_queue_desc-Taken :
    (q : Queue) (n : ℕ) (at : ℕ → ℕ) → FreeDescs q (suc n) at → Taken q n at
alloc_queue_desc-Taken q n at l =
    let inside : at 0 < q.size = l.inside 0 (omega arith) in
    let f : (at 0 == virtio_invalid_free_head) ≡ false = ground (arith, l.short, inside) in
    let g : ltb (at 0) q.size ≡ true = ground (arith, inside) in
    record {
      runs = alloc_runs q (at 0) (at 1) l.first f g (l.link 0 (omega arith));
      rest = record {
        short = l.short;
        first = refl;
        last = l.last;
        link = λ k p. l.link (suc k) (omega arith);
        inside = λ k p. l.inside (suc k) (omega arith);
        different = λ k k' p r. l.different (suc k) (suc k') (omega arith) (omega arith);
      };
      taken = λ k p e. l.different 0 (suc k) (omega arith) (omega arith) (sym e);
    }

-- With no free descriptor left the allocation fails and changes nothing.
pub alloc_queue_desc_full :
    (q : Queue) (at : ℕ → ℕ) → FreeDescs q 0 at → alloc_queue_desc q ≡ (invalid, q)
unfolding alloc_queue_desc
alloc_queue_desc_full q at l =
    let e : q.free_head ≡ virtio_invalid_free_head = l.first ∙ l.last in rw e

-- The queue with descriptor `i` put in front of the free ones.
abbrev pub freed : ℕ → Queue → Queue
freed i q = set_free_head i (put_desc i (λ d. record d { next = q.free_head }) q)

free_runs :
    (q : Queue) (i : ℕ)
    → (i == virtio_invalid_desc) ≡ false
    → leb q.size i ≡ false
    → ltb i q.size ≡ true
    → free_queue_desc i q ≡ (ok tt, freed i q)
unfolding free_queue_desc set_desc
free_runs q i e f g = rw (e, f, g)

pub free_queue_desc_runs :
    (q : Queue) (i : ℕ)
    → q.size < virtio_invalid_desc
    → i < q.size
    → free_queue_desc i q ≡ (ok tt, freed i q)
free_queue_desc_runs q i short p =
    let e : (i == virtio_invalid_desc) ≡ false = ground arith in
    let f : leb q.size i ≡ false = ground arith in
    let g : ltb i q.size ≡ true = ground arith in free_runs q i e f g

pub freed-FreeDescs :
    (q : Queue) (n : ℕ) (at : ℕ → ℕ) (i : ℕ)
    → i < q.size
    → ((k : ℕ) → k < n → at k ≢ i)
    → FreeDescs q n at
    → FreeDescs (freed i q) (suc n) (front i at)
freed-FreeDescs q n at i p other l = record {
  short = l.short;
  first = refl;
  last = l.last;
  link = links;
  inside = insides;
  different = differ;
}
  where
    links : (k : ℕ) → k < suc n → ((freed i q).desc (front i at k)).next ≡ front i at (suc k)
    links zero p = let e : (i == i) ≡ true = ground arith in rw e l.first
    links (suc k) p =
        let e : (at k == i) ≡ false = ground (arith, other k (omega arith)) in
        rw e (l.link k (omega arith))

    insides : (k : ℕ) → k < suc n → front i at k < q.size
    insides zero r = p
    insides (suc k) r = l.inside k (omega arith)

    differ : (k k' : ℕ) → k < k' → k' < suc n → front i at k ≢ front i at k'
    differ zero (suc k') r s = λ e. other k' (omega arith) (sym e)
    differ (suc k) (suc k') r s = l.different k k' (omega arith) (omega arith)
    differ k zero r s = absurd (omega arith)

-- With a descriptor free the allocation takes the first one, which is in the table, and leaves the
-- rest in order; freeing the descriptor succeeds and puts it back in front of them.
pub free-alloc_queue_desc :
    (q : Queue) (n : ℕ) (at : ℕ → ℕ)
    → FreeDescs q (suc n) at
    → (q' q'' : Queue) × (alloc_queue_desc q ≡ (ok (at 0), q'))
      × (at 0 < q.size)
      × FreeDescs q' n (λ k. at (suc k))
      × (free_queue_desc (at 0) q' ≡ (ok tt, q''))
      × FreeDescs q'' (suc n) (front (at 0) (λ k. at (suc k)))
free-alloc_queue_desc q n at l =
    let a = alloc_queue_desc-Taken q n at l in
    let q' = set_free_head (at 1) q in
    let inside = l.inside 0 (omega arith) in
    (
      q',
      freed (at 0) q',
      a.runs,
      inside,
      a.rest,
      free_queue_desc_runs q' (at 0) l.short inside,
      freed-FreeDescs q' n (λ k. at (suc k)) (at 0) inside a.taken a.rest,
    )
