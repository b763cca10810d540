-- ===== src/Core/Virtio/Init/Linked.antt =====
-- `init_virtio_blk_queue` (core/drivers/virtio/virtio_queue.c) makes a queue with all descriptors
-- free, or gives back what it had allocated.
use switch_os.Base.{
  ℕ, zero, suc, ◌+◌, ◌-◌, ◌%◌, ◌^◌, ◌≤◌, ◌<◌, ◌≡◌, refl, ◌∙◌, inl, inr, true, false, ltb, ◌==◌,
  if◌then◌else◌, Bool-cases, arith,
}
use switch_os.Core.Virtio.{Queue, virtio_invalid_free_head, put_desc}
use switch_os.Core.Virtio.FreeDescs.{FreeDescs}
use switch_os.Core.Virtio.Init.{link_loop, last_desc}

-- The loop changes nothing but the links of its descriptors.
record Linked (k i : ℕ) (q r : Queue) : Type 0 where
  size : r.size ≡ q.size
  used_idx : r.used_idx ≡ q.used_idx
  avail_idx : r.avail_idx ≡ q.avail_idx
  inside : (j : ℕ) → i ≤ j → j < i + k → (r.desc j).next ≡ (j + 1) % 2 ^ 16
  before : (j : ℕ) → j < i → (r.desc j).next ≡ (q.desc j).next

link_loop-Linked : (k i : ℕ) (q : Queue) → Linked k i q (link_loop k i q)
unfolding link_loop
link_loop-Linked zero i q = record {
  size = refl;
  used_idx = refl;
  avail_idx = refl;
  inside = λ j p r. absurd (omega arith);
  before = λ j p. refl;
}
link_loop-Linked (suc k) i q =
    let q' = put_desc i (λ d. record d { next = (i + 1) % 2 ^ 16 }) q in
    let l = link_loop-Linked k (suc i) q' in
    record {
      size = l.size;
      used_idx = l.used_idx;
      avail_idx = l.avail_idx;
      inside = λ j p r. elim (Bool-cases (j == i)) [
        | inl e ↦
            let j≡i : j ≡ i = ground arith in
            let here : (i == i) ≡ true = ground arith in
            rw j≡i (l.before i (omega arith) ∙ rw here refl)
        | inr e ↦ l.inside j (ground arith) (omega arith)
      ];
      before =
          λ j p. let e : (j == i) ≡ false = ground arith in l.before j (omega arith) ∙ rw e refl;
    }

-- All descriptors in order.
abbrev pub listed : ℕ → ℕ → ℕ
listed n k = if ltb k n then k else virtio_invalid_free_head

-- The queue that the loop and the two stores after it leave.
abbrev pub linked : ℕ → Queue → Queue
linked n q = record (last_desc (link_loop n 0 q)) { free_head = 0; seen_used = 0 }

pub linked-FreeDescs :
    (n : ℕ) (q : Queue) → 0 < n → n < 0xffff → q.size ≡ n → FreeDescs (linked n q) n (listed n)
linked-FreeDescs n q more small size = record {
  short = rw same_size small;
  first = let e : ltb 0 n ≡ true = ground arith in rw e refl;
  last = let e : ltb n n ≡ false = ground arith in rw e refl;
  link = links;
  inside = λ k p. let e : ltb k n ≡ true = ground arith in rw (e, same_size) p;
  different = λ k l p r.
      let e : ltb k n ≡ true = ground arith in
      let f : ltb l n ≡ true = ground arith in rw (e, f) (λ same. omega (arith, p, same));
}
  where
    l : Linked n 0 q (link_loop n 0 q)
    l = link_loop-Linked n 0 q

    same_size : (link_loop n 0 q).size ≡ n
    same_size = l.size ∙ size

    links : (k : ℕ) → k < n → ((linked n q).desc (listed n k)).next ≡ listed n (suc k)
    links k p =
        let e : ltb k n ≡ true = ground arith in
        elim (Bool-cases (suc k == n)) [
          | inl last ↦
              let f : ltb (suc k) n ≡ false = ground arith in
              let g : (k == n - 1) ≡ true = ground arith in rw (e, f, same_size, g) refl
          | inr more ↦
              let f : ltb (suc k) n ≡ true = ground arith in
              let g : (k == n - 1) ≡ false = ground arith in
              rw (e, f, same_size, g) (l.inside k (omega arith) (omega arith) ∙ omega arith)
        ]

-- The queue has `n` descriptors, all of them free, and nothing is outstanding.
pub record Fresh (n : ℕ) (q : Queue) : Type 0 where
  pub descs : FreeDescs q n (listed n)
  pub size : q.size ≡ n
  pub seen : q.seen_used ≡ 0
  pub used : q.used_idx ≡ 0
  pub avail : q.avail_idx ≡ 0

pub linked-Fresh :
    (n off : ℕ) (q q' : Queue)
    → 0 < n
    → n < 0xffff
    → q.size ≡ n
    → q.used_idx ≡ 0
    → q.avail_idx ≡ 0
    → q' ≡ record (linked n q) { notify_off = off }
    → Fresh n q'
linked-Fresh n off q q' more small size used avail e =
    let l = link_loop-Linked n 0 q in
    let f = linked-FreeDescs n q more small size in
    rw e (record {
      descs = record {
        short = f.short;
        first = f.first;
        last = f.last;
        link = f.link;
        inside = f.inside;
        different = f.different;
      };
      size = l.size ∙ size;
      seen = refl;
      used = l.used_idx ∙ used;
      avail = l.avail_idx ∙ avail;
    })
