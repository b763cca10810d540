-- ===== src/Core/Virtio/Blk/Sending.antt =====
-- `request_virtio_blk` (core/drivers/virtio/virtio_blk.c) posts a chain of three descriptors.
use switch_os.Base.{ℕ, suc, ◌+◌, ◌%◌, ◌^◌, ◌<◌, ◌≡◌, ◌≢◌, refl, sym, true, false, ◌==◌, arith}
use switch_os.Base.Action.{⊤, Result, ok}
use switch_os.Base.Bytes.{Outside}
use switch_os.Core.Disk.{virtio_blk_sector_size, WholeSectors}
use switch_os.Core.Alloc.{Heap, clear, core_malloc, core_calloc}
use switch_os.Core.Alloc.Blocks.{Laid, Filed, Filed-bounds}
use switch_os.Core.Alloc.FreeList.{Lists, Tracked}
use switch_os.Core.Alloc.Calloc.{core_calloc-Zeroed}
use switch_os.Core.Virtio.{Queue, put_desc, set_free_head, alloc_queue_desc}
use switch_os.Core.Virtio.FreeDescs.{FreeDescs, alloc_queue_desc-Taken}
use switch_os.Core.Virtio.Blk.{
  Machine, Device, set_req_header, header_desc, data_desc, status_desc, send, request_virtio_blk,
}
use switch_os.Core.Virtio.Blk.Chains.{
  Chain, Links, Asks, Others, chained, set_desc_runs, chained-Links, chained-FreeDescs,
  set_req_header-Asks, set_req_header-Outside,
}

module _ {D : Type 0} (buffer : ℕ → ℕ) (laid : Laid buffer) (device : Device D) where
  -- A free block for the header, three free descriptors and more, and nothing outstanding.
  pub record Prepared (s : Machine D) (m : ℕ) (at : ℕ → ℕ) (free : Lists) : Type 0 where
    pub tracked : Tracked buffer s.heap free
    pub free_block : 0 < free.count 0
    pub descs : FreeDescs s.queue (suc (suc (suc m))) at
    pub some_size : 0 < s.queue.size
    pub seen : s.queue.seen_used ≡ s.queue.used_idx
    pub answered : s.queue.avail_idx ≡ s.queue.used_idx
    pub idx_small : s.queue.used_idx < 2 ^ 16

  -- The machine right before the device is notified. The heap was `h` after the allocation.
  abbrev pub posted : (type sector data_at size : ℕ) → Chain → Heap → ℕ → Machine D → Machine D
  posted type sector data_at size c h next s = record s {
    heap = set_req_header c.header type sector (record h { mem = clear h.mem c.header 17 });
    queue = chained type data_at size c (set_free_head next s.queue);
  }

  send_runs :
      (type data_at size : ℕ) (c : Chain) (s : Machine D)
      → (c.desc1 < s.queue.size) × (c.desc2 < s.queue.size) × (c.desc3 < s.queue.size)
      → let t : Machine D = record s { queue = chained type data_at size c s.queue } in
        send buffer device type data_at size c.header c.desc1 c.desc2 c.desc3 s
        ≡ (ok tt, device.notify t.queue.notify_off t.queue.num t)
  unfolding send
  send_runs type data_at size c s (p1, p2, p3) =
      let q₁ = put_desc c.desc1 (header_desc c.header c.desc2) s.queue in
      let q₂ = put_desc c.desc2 (data_desc type data_at size c.desc3) q₁ in
      rw (
        set_desc_runs c.desc1 (header_desc c.header c.desc2) s.queue p1,
        set_desc_runs c.desc2 (data_desc type data_at size c.desc3) q₁ p2,
        set_desc_runs c.desc3 (status_desc c.header) q₂ p3,
      )

  request_runs :
      (type sector data_at size header d1 d2 d3 : ℕ) (s : Machine D) (h : Heap) (q₁ q₂ q₃ : Queue)
      (r : Result ⊤ × Machine D)
      → (size % virtio_blk_sector_size == 0) ≡ true
      → core_calloc 17 1 s.heap ≡ (header, h)
      → (header == 0) ≡ false
      → alloc_queue_desc s.queue ≡ (ok d1, q₁)
      → alloc_queue_desc q₁ ≡ (ok d2, q₂)
      → alloc_queue_desc q₂ ≡ (ok d3, q₃)
      → send buffer device type data_at size header d1 d2 d3
          (record s { heap = set_req_header header type sector h; queue = q₃ })
        ≡ r
      → request_virtio_blk buffer device type sector data_at size s ≡ r
  unfolding request_virtio_blk
  request_runs type sector data_at size header d1 d2 d3 s h q₁ q₂ q₃ r e f g a b c run =
      rw (e, f, g, a, b, c) run

  -- What a request leaves behind.
  pub record Posted (s : Machine D) (m : ℕ) (at : ℕ → ℕ) (free : Lists)
      (type sector data_at size : ℕ) (c : Chain) (h : Heap) (t : Machine D) : Type 0 where
    pub runs :
        request_virtio_blk buffer device type sector data_at size s
        ≡ (ok tt, device.notify t.queue.notify_off t.queue.num t)
    pub frame : posted type sector data_at size c h (at 3) s ≡ t
    pub links : Links t.queue type data_at size c
    pub asks : Asks t.heap.mem type sector c.header
    pub ring : t.queue.avail_ring (s.queue.avail_idx % s.queue.size) ≡ c.desc1
    pub rest : FreeDescs t.queue m (λ k. at (suc (suc (suc k))))
    pub taken : Others m (λ k. at (suc (suc (suc k)))) c
    pub malloc : core_malloc 17 s.heap ≡ (c.header, h)
    pub some_block : c.header ≢ 0
    pub block : Filed buffer 0 c.header
    pub same_head : (j : ℕ) → t.heap.head j ≡ h.head j
    pub same_mem : (x : ℕ) → Outside c.header 32 x → t.heap.mem x ≡ h.mem x

  -- A request on a prepared machine posts its chain.
  pub request_virtio_blk-Posted :
      (type sector data_at size m : ℕ) (at : ℕ → ℕ) (free : Lists) (s : Machine D)
      → Prepared s m at free
      → WholeSectors sector size
      → type < 2 ^ 32
      → (c : Chain) × (h : Heap) × (t : Machine D) × Posted s m at free type sector data_at size c h
          t
  request_virtio_blk-Posted type sector data_at size m at free s p (whole, small, low) type_small =
      let (header, h, z) =
        core_calloc-Zeroed buffer laid s.heap free 17 1 p.tracked p.free_block (omega arith) in
      let l = p.descs in
      let a = alloc_queue_desc-Taken s.queue (suc (suc m)) at l in
      let b = alloc_queue_desc-Taken _ (suc m) (λ k. at (suc k)) a.rest in
      let d = alloc_queue_desc-Taken _ m (λ k. at (suc (suc k))) b.rest in
      let c : Chain = record { header = header; desc1 = at 0; desc2 = at 1; desc3 = at 2 } in
      let inside : (at 0 < s.queue.size) × (at 1 < s.queue.size) × (at 2 < s.queue.size) =
        (l.inside 0 (omega arith), l.inside 1 (omega arith), l.inside 2 (omega arith)) in
      let header_low : header + 16 < 2 ^ 64 =
        omega (arith, (Filed-bounds laid 0 header z.block).1) in
      let q₃ = set_free_head (at 3) s.queue in
      let taken : Others m (λ k. at (suc (suc (suc k)))) c = λ k r. (
        (λ e. l.different 0 (suc (suc (suc k))) (omega arith) (omega arith) (sym e)),
        (λ e. l.different 1 (suc (suc (suc k))) (omega arith) (omega arith) (sym e)),
        λ e. l.different 2 (suc (suc (suc k))) (omega arith) (omega arith) (sym e),
      ) in
      (
        c,
        h,
        posted type sector data_at size c h (at 3) s,
        record {
          runs =
              request_runs type sector data_at size header (at 0) (at 1) (at 2) s _ _ _ _ _
                (ground arith) z.calloc (ground (arith, z.some_block)) a.runs b.runs d.runs
                (send_runs type data_at size c _ inside);
          frame = refl;
          links = chained-Links type data_at size c q₃ small header_low inside (
            l.different 0 1 (omega arith) (omega arith),
            l.different 0 2 (omega arith) (omega arith),
            l.different 1 2 (omega arith) (omega arith),
          );
          asks =
              set_req_header-Asks header type sector (record h { mem = clear h.mem header 17 })
                type_small low;
          ring = ground arith;
          rest =
              chained-FreeDescs type data_at size m (λ k. at (suc (suc (suc k)))) c q₃
                (λ k r. taken k r) d.rest;
          taken = taken;
          malloc = z.malloc;
          some_block = z.some_block;
          block = z.block;
          same_head = λ j. refl;
          same_mem = λ x o. set_req_header-Outside header type sector x h o;
        },
      )
