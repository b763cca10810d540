-- ===== src/Core/Virtio/Blk/Chains.antt =====
-- The three descriptors of a request of core/drivers/virtio/virtio_blk.c and its header.
use switch_os.Base.{
  ℕ, ◌+◌, ◌%◌, ◌^◌, ◌<◌, ◌≡◌, ◌≢◌, ◌∙◌, true, false, ltb, ◌==◌, if◌then◌else◌, arith,
}
use switch_os.Base.Action.{ok}
use switch_os.Base.Bytes.{
  Bytes, load32, load64, store, load32-store, load64-store, load32-same, load64-same, store-Outside,
  Outside,
}
use switch_os.Core.Alloc.{Heap, clear}
use switch_os.Core.Virtio.{Queue, Desc, set_desc, put_desc}
use switch_os.Core.Virtio.FreeDescs.{FreeDescs, FreeDescs-put_desc}
use switch_os.Core.Virtio.Blk.{
  virtio_blk_t_in, set_req_header, header_desc, data_desc, status_desc, publish,
}

-- The descriptors of a request and the block that holds its header.
pub record Chain : Type 0 where
  pub header : ℕ
  pub desc1 : ℕ
  pub desc2 : ℕ
  pub desc3 : ℕ

abbrev pub data_flags : ℕ → ℕ
data_flags type = if type == virtio_blk_t_in then 3 else 1

-- The chain of a request, as the device and the driver read it.
pub record Links (q : Queue) (type data_at size : ℕ) (c : Chain) : Type 0 where
  pub first : q.desc c.desc1 ≡ record { addr = c.header; len = 16; flags = 1; next = c.desc2 }
  pub second :
      q.desc c.desc2
      ≡ record { addr = data_at; len = size; flags = data_flags type; next = c.desc3 }
  pub third_addr : (q.desc c.desc3).addr ≡ c.header + 16
  pub third_len : (q.desc c.desc3).len ≡ 1
  pub third_flags : (q.desc c.desc3).flags ≡ 2
  pub inside : (c.desc1 < q.size) × (c.desc2 < q.size) × (c.desc3 < q.size)
  pub different : (c.desc1 ≢ c.desc2) × (c.desc1 ≢ c.desc3) × (c.desc2 ≢ c.desc3)

-- The header's words.
pub record Asks (mem : Bytes) (type sector : ℕ) (header : ℕ) : Type 0 where
  pub type_eq : load32 mem header ≡ type
  pub sector_eq : load64 mem (header + 8) ≡ sector

-- The queue once the chain is in the available ring.
abbrev pub chained : (type data_at size : ℕ) → Chain → Queue → Queue
chained type data_at size c q = publish c.desc1 (
    put_desc c.desc3 (status_desc c.header) (
      put_desc c.desc2 (data_desc type data_at size c.desc3)
        (put_desc c.desc1 (header_desc c.header c.desc2) q)))

pub set_desc_runs :
    (i : ℕ) (f : Desc → Desc) (q : Queue) → i < q.size → set_desc i f q ≡ (ok tt, put_desc i f q)
unfolding set_desc
set_desc_runs i f q p = let e : ltb i q.size ≡ true = ground arith in rw e

pub chained-Links :
    (type data_at size : ℕ) (c : Chain) (q : Queue)
    → size < 2 ^ 32
    → c.header + 16 < 2 ^ 64
    → (c.desc1 < q.size) × (c.desc2 < q.size) × (c.desc3 < q.size)
    → (c.desc1 ≢ c.desc2) × (c.desc1 ≢ c.desc3) × (c.desc2 ≢ c.desc3)
    → Links (chained type data_at size c q) type data_at size c
chained-Links type data_at size c q small low inside (n12, n13, n23) =
    let e12 : (c.desc1 == c.desc2) ≡ false = ground (arith, n12) in
    let e13 : (c.desc1 == c.desc3) ≡ false = ground (arith, n13) in
    let e23 : (c.desc2 == c.desc3) ≡ false = ground (arith, n23) in
    let e11 : (c.desc1 == c.desc1) ≡ true = ground arith in
    let e22 : (c.desc2 == c.desc2) ≡ true = ground arith in
    let e33 : (c.desc3 == c.desc3) ≡ true = ground arith in
    let len : size % 2 ^ 32 ≡ size = omega arith in
    let addr : (c.header + 16) % 2 ^ 64 ≡ c.header + 16 = omega arith in
    record {
      first = rw (e13, e12, e11);
      second = rw (e23, e22, len);
      third_addr = rw (e33, addr);
      third_len = rw e33;
      third_flags = rw e33;
      inside = inside;
      different = (n12, n13, n23);
    }

-- The chain's descriptors are none of the first `m` of `at`.
abbrev pub Others : ℕ → (ℕ → ℕ) → Chain → Type 0
Others m at c = (k : ℕ) → k < m → (at k ≢ c.desc1) × (at k ≢ c.desc2) × (at k ≢ c.desc3)

pub chained-FreeDescs :
    (type data_at size m : ℕ) (at : ℕ → ℕ) (c : Chain) (q : Queue)
    → Others m at c
    → FreeDescs q m at
    → FreeDescs (chained type data_at size c q) m at
chained-FreeDescs type data_at size m at c q others l =
    let p =
      FreeDescs-put_desc c.desc3 (status_desc c.header) (λ k r. (others k r).2)
        (FreeDescs-put_desc c.desc2 (data_desc type data_at size c.desc3) (λ k r. (others k r).1)
          (FreeDescs-put_desc c.desc1 (header_desc c.header c.desc2) (λ k r. (others k r).0) l)) in
    record {
      short = p.short;
      first = p.first;
      last = p.last;
      link = p.link;
      inside = p.inside;
      different = p.different;
    }

-- The header's stores leave the type and the sector in it, a zero status byte, and all else.
pub set_req_header-Asks :
    (header type sector : ℕ) (h : Heap)
    → type < 2 ^ 32
    → sector < 2 ^ 64
    → Asks (set_req_header header type sector h).mem type sector header
set_req_header-Asks header type sector h small low =
    let m₁ = store 4 h.mem header type in
    let m₂ = store 8 m₁ (header + 8) sector in
    record {
      type_eq =
          load32-same m₁ _ header (λ x p q.
            store-Outside 1 m₂ (header + 16) 0 x (omega arith)
            ∙ store-Outside 8 m₁ (header + 8) sector x (omega arith))
          ∙ load32-store h.mem header type small;
      sector_eq =
          load64-same m₂ _ (header + 8)
            (λ x p q. store-Outside 1 m₂ (header + 16) 0 x (omega arith))
          ∙ load64-store m₁ (header + 8) sector low;
    }

pub set_req_header-Outside :
    (header type sector x : ℕ) (h : Heap)
    → Outside header 32 x
    → (set_req_header header type sector (record h { mem = clear h.mem header 17 })).mem x ≡ h.mem x
set_req_header-Outside header type sector x h o =
    let m₀ = clear h.mem header 17 in
    let m₁ = store 4 m₀ header type in
    let m₂ = store 8 m₁ (header + 8) sector in
    store-Outside 1 m₂ (header + 16) 0 x (omega (arith, o))
    ∙ store-Outside 8 m₁ (header + 8) sector x (omega (arith, o))
    ∙ store-Outside 4 m₀ header type x (omega (arith, o))
    ∙ ground (arith, o)
