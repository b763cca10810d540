-- ===== src/Core/Virtio/Blk/Consuming.antt =====
-- `consume_response_virtio_blk` (core/drivers/virtio/virtio_blk.c) takes an answered request back.
use switch_os.Base.{
  ℕ, zero, suc, ◌+◌, ◌-◌, ◌%◌, ◌^◌, ◌<◌, ◌≡◌, ◌≢◌, refl, sym, ap, ◌∙◌, inl, inr, Bool, ◌&&◌, true,
  false, ltb, ◌==◌, if◌then◌else◌, Bool-cases, arith,
}
use switch_os.Base.Action.{⊤, Result, ok, invalid}
use switch_os.Core.Alloc.{core_free}
use switch_os.Core.Virtio.{
  Queue, Desc, virtio_invalid_desc, has_next, has_write, queue_desc_at, see_used, free_queue_desc,
  is_unseen_used_virtio_queue, pop_used_virtio_queue,
}
use switch_os.Core.Virtio.FreeDescs.{FreeDescs, front, freed, free_queue_desc_runs, freed-FreeDescs}
use switch_os.Core.Virtio.Blk.{
  Machine, Device, virtio_blk_s_ok, left_over, validate_used_response, release_chain, free_request,
  consume_response_virtio_blk, wait_loop,
}
use switch_os.Core.Virtio.Blk.Chains.{Chain, Links, Others, data_flags}
use switch_os.Core.Virtio.Blk.Answering.{used_len, InOrOut}

queue_desc_at_runs : (i : ℕ) (q : Queue) → i < q.size → queue_desc_at i q ≡ (ok (q.desc i), q)
unfolding queue_desc_at
queue_desc_at_runs i q p = let e : ltb i q.size ≡ true = ground arith in rw e

pop_runs :
    (q : Queue) (i len : ℕ)
    → is_unseen_used_virtio_queue q ≡ true
    → q.used_ring (q.seen_used % q.size) ≡ record { id = i; len = len }
    → i % 2 ^ 16 ≡ i
    → pop_used_virtio_queue q ≡ (ok (i, len), see_used q)
unfolding pop_used_virtio_queue
pop_runs q i len e f g = rw (e, f, g)

freed-addr : (i j : ℕ) (q : Queue) → ((freed i q).desc j).addr ≡ (q.desc j).addr
freed-addr i j q = elim (Bool-cases (j == i)) [ inl e ↦ rw e | inr e ↦ rw e ]

abbrev pub outcome : Bool → Result ⊤
outcome b = if b then ok tt else invalid

same_test : (a b c d : ℕ) → (a ≡ b → c ≡ d) → (c ≡ d → a ≡ b) → (a == b) ≡ (c == d)
same_test a b c d to from = elim (Bool-cases (a == b)) [
  | inl e ↦ let z = to (ground arith) in e ∙ sym (the_true c d z)
  | inr e ↦ elim (Bool-cases (c == d)) [
    | inr f ↦ e ∙ sym f
    | inl f ↦ let z = from (ground arith) in absurd (ground (arith, e, z))
  ]
]
  where
    the_true : (c d : ℕ) → c ≡ d → (c == d) ≡ true
    the_true c d e = ground arith

-- Nothing is left over just when the used length is that of the bytes which the device may write.
left_over-used_len :
    (type size len : ℕ) (d2 d3 : Desc)
    → InOrOut type
    → size + 1 < 2 ^ 32
    → len < 2 ^ 32
    → d2.flags ≡ data_flags type
    → d2.len ≡ size
    → d3.len ≡ 1
    → (left_over d2 d3 len == 0) ≡ (len == used_len type size)
left_over-used_len type size len d2 d3 (inl e) small len_small f g h =
    rw (f, g, h, e)
      (same_test ((((len + 2 ^ 32 - 1) % 2 ^ 32) + 2 ^ 32 - size) % 2 ^ 32) 0 len (size + 1)
        (λ z. omega (arith, z, small, len_small)) (λ z. omega (arith, z, small)))
left_over-used_len type size len d2 d3 (inr e) small len_small f g h =
    rw (f, g, h, e)
      (same_test ((len + 2 ^ 32 - 1) % 2 ^ 32) 0 len 1 (λ z. omega (arith, z, len_small))
        (λ z. omega (arith, z)))

has_next-data_flags : (type : ℕ) → has_next (data_flags type) ≡ true
has_next-data_flags type = ground arith

-- The chain's descriptors in front of the free ones.
abbrev pub put_back : Chain → (ℕ → ℕ) → ℕ → ℕ
put_back c at = front c.desc3 (front c.desc2 (front c.desc1 at))

pub consumed-FreeDescs :
    (m : ℕ) (at : ℕ → ℕ) (c : Chain) (q : Queue)
    → FreeDescs q m at
    → Others m at c
    → (c.desc1 < q.size) × (c.desc2 < q.size) × (c.desc3 < q.size)
    → (c.desc1 ≢ c.desc2) × (c.desc1 ≢ c.desc3) × (c.desc2 ≢ c.desc3)
    → FreeDescs
        (freed c.desc3 (freed c.desc2 (freed c.desc1 q)))
        (suc (suc (suc m)))
        (put_back c at)
consumed-FreeDescs m at c q l others (p1, p2, p3) (n12, n13, n23) =
    freed-FreeDescs _ (suc (suc m)) (front c.desc2 (front c.desc1 at)) c.desc3 p3 third (
      freed-FreeDescs _ (suc m) (front c.desc1 at) c.desc2 p2 second
        (freed-FreeDescs q m at c.desc1 p1 (λ k r. (others k r).0) l))
  where
    second : (k : ℕ) → k < suc m → front c.desc1 at k ≢ c.desc2
    second zero r = n12
    second (suc k) r = (others k (omega arith)).1

    third : (k : ℕ) → k < suc (suc m) → front c.desc2 (front c.desc1 at) k ≢ c.desc3
    third zero r = n23
    third (suc zero) r = n13
    third (suc (suc k)) r = (others k (omega arith)).2

module _ {D : Type 0} (buffer : ℕ → ℕ) (device : Device D) where
  validate_runs :
      (s : Machine D) (i len : ℕ) (d1 d2 d3 : Desc)
      → queue_desc_at i s.queue ≡ (ok d1, s.queue)
      → queue_desc_at d1.next s.queue ≡ (ok d2, s.queue)
      → queue_desc_at d2.next s.queue ≡ (ok d3, s.queue)
      → has_next d1.flags ≡ true
      → has_next d2.flags ≡ true
      → has_write d3.flags ≡ true
      → validate_used_response buffer device i len s
        ≡ (outcome ((s.heap.mem d3.addr == virtio_blk_s_ok) && (left_over d2 d3 len == 0)), s)
  unfolding validate_used_response
  validate_runs s i len d1 d2 d3 a b c e f g =
      elim (Bool-cases (s.heap.mem d3.addr == virtio_blk_s_ok)) [
        | inr bad ↦ rw (a, e, b, f, c, g, bad)
        | inl good ↦ elim (Bool-cases (left_over d2 d3 len == 0)) [
          | inr bad ↦ rw (a, e, b, f, c, g, good, bad)
          | inl full ↦ rw (a, e, b, f, c, g, good, full)
        ]
      ]

  release_runs :
      (s : Machine D) (i j k : ℕ) (q₁ q₂ q₃ : Queue) (d : Desc)
      → free_queue_desc i s.queue ≡ (ok tt, q₁)
      → free_queue_desc j q₁ ≡ (ok tt, q₂)
      → free_queue_desc k q₂ ≡ (ok tt, q₃)
      → queue_desc_at i q₃ ≡ (ok d, q₃)
      → release_chain buffer device i j k s
        ≡ (ok tt, record s { heap = core_free buffer d.addr s.heap; queue = q₃ })
  unfolding release_chain
  release_runs s i j k q₁ q₂ q₃ d a b c e = rw (a, b, c, e)

  free_runs :
      (s : Machine D) (i : ℕ) (d1 d2 d3 : Desc) (r : Result ⊤ × Machine D)
      → queue_desc_at i s.queue ≡ (ok d1, s.queue)
      → queue_desc_at d1.next s.queue ≡ (ok d2, s.queue)
      → queue_desc_at d2.next s.queue ≡ (ok d3, s.queue)
      → has_next d1.flags ≡ true
      → has_next d2.flags ≡ true
      → has_write d3.flags ≡ true
      → release_chain buffer device i d1.next d2.next s ≡ r
      → free_request buffer device i s ≡ r
  unfolding free_request
  free_runs s i d1 d2 d3 r a b c e f g run = rw (a, e, b, f, c, g) run

  consume_runs :
      (s u v : Machine D) (q : Queue) (fuel i len : ℕ) (b : Bool)
      → wait_loop buffer device fuel s ≡ (ok tt, u)
      → pop_used_virtio_queue u.queue ≡ (ok (i, len), q)
      → validate_used_response buffer device i len (record u { queue = q })
        ≡ (outcome b, record u { queue = q })
      → (i == virtio_invalid_desc) ≡ false
      → free_request buffer device i (record u { queue = q }) ≡ (ok tt, v)
      → consume_response_virtio_blk buffer device fuel s ≡ (outcome b, v)
  unfolding consume_response_virtio_blk
  consume_runs s u v q fuel i len true a b c e f = rw (a, b, c, e, f)
  consume_runs s u v q fuel i len false a b c e f = rw (a, b, c, e, f)

  -- An answer on the used ring of a machine.
  pub record Response (u : Machine D) (type data_at size len : ℕ) (c : Chain) : Type 0 where
    pub short : u.queue.size < virtio_invalid_desc
    pub unseen : u.queue.seen_used ≢ u.queue.used_idx
    pub elem :
        u.queue.used_ring (u.queue.seen_used % u.queue.size) ≡ record { id = c.desc1; len = len }
    pub links : Links u.queue type data_at size c

  -- The status byte is `VIRTIO_BLK_S_OK`, and the device wrote the data of a read and the status.
  abbrev pub accepted : (type size len : ℕ) → Chain → Machine D → Bool
  accepted type size len c u =
      (u.heap.mem (c.header + 16) == virtio_blk_s_ok) && (len == used_len type size)

  abbrev pub consumed : Chain → Machine D → Machine D
  consumed c u = record u {
    heap = core_free buffer c.header u.heap;
    queue = freed c.desc3 (freed c.desc2 (freed c.desc1 (see_used u.queue)));
  }

  -- Once the wait has ended in a response on the used ring, the response is consumed: the result is
  -- success when the status byte is `VIRTIO_BLK_S_OK` and the used length is that of the
  -- data of a read and the status byte, or of the status byte alone for a write, and `ERR_INVALID`
  -- otherwise. Either way the three descriptors are free
  -- again and the header's block has been handed to `core_free`.
  pub consume_response_virtio_blk-consumed :
      (s u : Machine D) (fuel type data_at size len : ℕ) (c : Chain)
      → wait_loop buffer device fuel s ≡ (ok tt, u)
      → Response u type data_at size len c
      → InOrOut type
      → size + 1 < 2 ^ 32
      → len < 2 ^ 32
      → consume_response_virtio_blk buffer device fuel s
        ≡ (outcome (accepted type size len c u), consumed c u)
  consume_response_virtio_blk-consumed s u fuel type data_at size len c wait r in_out small
        len_small =
      let q = see_used u.queue in
      let s₁ : Machine D = record u { queue = q } in
      let (p1, p2, p3) = r.links.inside in
      let d1 : Desc = record { addr = c.header; len = 16; flags = 1; next = c.desc2 } in
      let d2 : Desc = record {
        addr = data_at;
        len = size;
        flags = data_flags type;
        next = c.desc3;
      } in
      let d3 = u.queue.desc c.desc3 in
      let a1 = queue_desc_at_runs c.desc1 q p1 ∙ ap (λ d. (ok d, q)) r.links.first in
      let a2 = queue_desc_at_runs c.desc2 q p2 ∙ ap (λ d. (ok d, q)) r.links.second in
      let a3 = queue_desc_at_runs c.desc3 q p3 in
      let next2 = has_next-data_flags type in
      let write : has_write d3.flags ≡ true = rw r.links.third_flags refl in
      let q₁ = freed c.desc1 q in
      let q₂ = freed c.desc2 q₁ in
      let q₃ = freed c.desc3 q₂ in
      let addr : (q₃.desc c.desc1).addr ≡ c.header =
        freed-addr c.desc3 c.desc1 q₂
        ∙ freed-addr c.desc2 c.desc1 q₁
        ∙ freed-addr c.desc1 c.desc1 q
        ∙ ap (λ (d : Desc). d.addr) r.links.first in
      let released =
        release_runs s₁ c.desc1 c.desc2 c.desc3 q₁ q₂ q₃ (q₃.desc c.desc1)
          (free_queue_desc_runs q c.desc1 r.short p1) (free_queue_desc_runs q₁ c.desc2 r.short p2)
          (free_queue_desc_runs q₂ c.desc3 r.short p3) (queue_desc_at_runs c.desc1 q₃ p1)
        ∙ ap (λ a. (ok tt, record u { heap = core_free buffer a u.heap; queue = q₃ })) addr in
      let validated : validate_used_response buffer device c.desc1 len s₁
          ≡ (outcome (accepted type size len c u), s₁) =
        validate_runs s₁ c.desc1 len d1 d2 d3 a1 a2 a3 refl next2 write
        ∙ ap (λ a. (outcome ((u.heap.mem a == virtio_blk_s_ok) && (left_over d2 d3 len == 0)), s₁))
            r.links.third_addr
        ∙ ap (λ b. (outcome ((u.heap.mem (c.header + 16) == virtio_blk_s_ok) && b), s₁))
            (left_over-used_len type size len d2 d3 in_out small len_small refl refl
              r.links.third_len) in
      consume_runs s u (consumed c u) q fuel c.desc1 len (accepted type size len c u) wait
        (pop_runs u.queue c.desc1 len (ground (arith, r.unseen)) r.elem
          (omega (arith, p1, r.short)))
        validated (ground (arith, p1, r.short))
        (free_runs s₁ c.desc1 d1 d2 d3 (ok tt, consumed c u) a1 a2 a3 refl next2 write released)

  -- A proper answer is accepted.
  pub used_len-accepted :
      (u : Machine D) (type size : ℕ) (c : Chain)
      → u.heap.mem (c.header + 16) ≡ 0
      → accepted type size (used_len type size) c u ≡ true
  used_len-accepted u type size c status =
      let filled : (used_len type size == used_len type size) ≡ true = ground arith in
      rw (status, filled) refl
