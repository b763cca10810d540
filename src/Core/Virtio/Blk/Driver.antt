-- ===== src/Core/Virtio/Blk/Driver.antt =====
-- core/drivers/virtio/virtio_blk.c fills the interface of Core/Disk.antt: a request and the
-- consumption of its response move exactly the bytes asked for.
use switch_os.Base.{
  ℕ, suc, ◌+◌, ◌*◌, ◌%◌, ◌^◌, ◌≤◌, ◌<◌, ◌≡◌, ◌≢◌, refl, sym, ap, ◌∙◌, inl, inr, true, ◌==◌, arith,
}
use switch_os.Base.Action.{ok}
use switch_os.Base.Bytes.{Bytes, blit, IsBytes}
use switch_os.Core.Alloc.{Heap}
use switch_os.Core.Alloc.Blocks.{Laid}
use switch_os.Core.Alloc.FreeList.{Lists, pushed, popped}
use switch_os.Core.Alloc.Freeing.{core_free-core_malloc}
use switch_os.Core.Alloc.Calloc.{smallest}
use switch_os.Core.Disk.{BlkDriver, Works, At, Serves, WholeSectors, virtio_blk_sector_size}
use switch_os.Core.Virtio.{Queue, UsedElem, see_used}
use switch_os.Core.Virtio.FreeDescs.{FreeDescs}
use switch_os.Core.Virtio.Blk.{
  Machine, Device, virtio_blk_t_in, virtio_blk_t_out, request_virtio_blk, read_virtio_blk,
  write_virtio_blk, consume_response_virtio_blk, wait_loop,
}
use switch_os.Core.Virtio.Blk.Chains.{Chain, Links}
use switch_os.Core.Virtio.Blk.Sending.{Prepared, Posted, request_virtio_blk-Posted}
use switch_os.Core.Virtio.Blk.Answering.{
  ram_after, disk_after, ram_after-IsBytes, disk_after-IsBytes, used_len, InOrOut, notified, polls,
  Outstanding, Answered, Obeys, wait_loop-polls,
}
use switch_os.Core.Virtio.Blk.Consuming.{
  Response, consumed, put_back, consumed-FreeDescs, outcome, used_len-accepted,
  consume_response_virtio_blk-consumed,
}

-- The queue after the device has moved on and the driver has seen it.
abbrev answered : (used_idx : ℕ) → (ℕ → UsedElem) → Queue → Queue
answered i ring q = record q { used_idx = i; used_ring = ring }

answered-Links :
    {q q' : Queue} {type data_at size : ℕ} {c : Chain} (i : ℕ) (ring : ℕ → UsedElem)
    → q' ≡ answered i ring q
    → Links q type data_at size c
    → Links q' type data_at size c
answered-Links i ring e l = rw e (record {
  first = l.first;
  second = l.second;
  third_addr = l.third_addr;
  third_len = l.third_len;
  third_flags = l.third_flags;
  inside = l.inside;
  different = l.different;
})

answered-FreeDescs :
    {q q' : Queue} {n : ℕ} {at : ℕ → ℕ} (i : ℕ) (ring : ℕ → UsedElem)
    → q' ≡ answered i ring q
    → FreeDescs q n at
    → FreeDescs (see_used q') n at
answered-FreeDescs i ring e l = rw e (record {
  short = l.short;
  first = l.first;
  last = l.last;
  link = l.link;
  inside = l.inside;
  different = l.different;
})

used_len_small :
    (type size : ℕ) {sector : ℕ}
    → InOrOut type
    → WholeSectors sector size
    → used_len type size < 2 ^ 32
used_len_small type size (inl e) req = rw e (omega (arith, req))
used_len_small type size (inr e) req = rw e (omega arith)

type_small : (type : ℕ) → InOrOut type → type < 2 ^ 32
type_small type p = omega (arith, p)

module _ {D : Type 0} (buffer : ℕ → ℕ) (laid : Laid buffer) (device : Device D)
    (idle : D → Type 0) where
  module _ {s t : Machine D} {m type sector data_at size : ℕ} {at : ℕ → ℕ} {free : Lists}
      {c : Chain} {h : Heap} (p : Prepared buffer laid device s m at free)
      (post : Posted buffer laid device s m at free type sector data_at size c h t) where
    size_same : t.queue.size ≡ s.queue.size
    size_same = sym (ap (λ (t : Machine D). t.queue.size) post.frame)

    used_same : t.queue.used_idx ≡ s.queue.used_idx
    used_same = sym (ap (λ (t : Machine D). t.queue.used_idx) post.frame)

    seen_same : t.queue.seen_used ≡ s.queue.used_idx
    seen_same = sym (ap (λ (t : Machine D). t.queue.seen_used) post.frame) ∙ p.seen

    avail_next : t.queue.avail_idx ≡ (s.queue.used_idx + 1) % 2 ^ 16
    avail_next =
        sym (ap (λ (t : Machine D). t.queue.avail_idx) post.frame)
        ∙ ap (λ i. (i + 1) % 2 ^ 16) p.answered

    posted-Outstanding : Outstanding device t type sector data_at size c
    posted-Outstanding = record {
      some_size = rw size_same p.some_size;
      one = rw used_same avail_next;
      ring = rw (size_same, used_same, ← p.answered) post.ring;
      links = post.links;
      asks = post.asks;
    }

    module _ {v : Machine D} (ans : Answered device idle t type sector data_at size c v) where
      used_next : v.queue.used_idx ≡ (s.queue.used_idx + 1) % 2 ^ 16
      used_next = ap (λ q. q.used_idx) ans.queue ∙ ap (λ i. (i + 1) % 2 ^ 16) used_same

      v_seen : v.queue.seen_used ≡ s.queue.used_idx
      v_seen = ap (λ q. q.seen_used) ans.queue ∙ seen_same

      v_size : v.queue.size ≡ s.queue.size
      v_size = ap (λ q. q.size) ans.queue ∙ size_same

      v_unseen : v.queue.seen_used ≢ v.queue.used_idx
      v_unseen e = omega (arith, e, used_next, v_seen, p.idx_small)

      -- The answer of the device, as the driver finds it.
      answered-Response : Response buffer device v type data_at size (used_len type size) c
      answered-Response = record {
        short = rw v_size p.descs.short;
        unseen = v_unseen;
        elem = rw (v_seen, v_size, ← used_same, ← size_same) ans.elem;
        links = answered-Links _ v.queue.used_ring ans.queue post.links;
      }

      answered-Prepared :
          (free' : Lists) × Prepared buffer laid device
            (consumed buffer device c v)
            m
            (put_back c (λ k. at (suc (suc (suc k)))))
            free'
      answered-Prepared =
          let (i, o, chosen, at_first, le, tracked) =
            core_free-core_malloc buffer laid s.heap h v.heap free 17 c.header p.tracked post.malloc
              post.some_block (λ j. ans.same_head j ∙ post.same_head j)
              (λ x o. ans.same_mem x (omega (arith, o)) ∙ post.same_mem x o) in
          let rest = answered-FreeDescs _ v.queue.used_ring ans.queue post.rest in
          let l = answered-Links _ v.queue.used_ring ans.queue post.links in
          (
            pushed o c.header (popped i free),
            record {
              tracked = tracked;
              free_block =
                  still_free i o (smallest buffer laid s.heap free 17 i chosen (omega arith)) le;
              descs =
                  consumed-FreeDescs m _ c (see_used v.queue) rest post.taken l.inside l.different;
              some_size = rw v_size p.some_size;
              seen = rw (v_seen, used_next) refl;
              answered = ap (λ q. q.avail_idx) ans.queue ∙ avail_next ∙ sym used_next;
              idx_small = rw used_next (omega arith);
            },
          )
        where
          still_free : (i o : ℕ) → i ≡ 0 → o ≤ i → 0 < (pushed o c.header (popped i free)).count 0
          still_free i o i≡0 le =
              let o≡0 : o ≡ 0 = omega (arith, le, i≡0) in rw (o≡0, i≡0) (omega arith)

  -- A machine between two requests: everything is at rest, and memory and the disk hold bytes.
  pub record Ready (s : Machine D) : Type 0 where
    pub spare : ℕ
    pub at : ℕ → ℕ
    pub free : Lists
    pub prepared : Prepared buffer laid device s spare at free
    pub is_idle : idle s.dev
    pub bytes : IsBytes s.ram × IsBytes (device.disk s.dev)

  module _ (delay : ℕ) (obeys : Obeys device idle delay) where
    wait_runs :
        (k : ℕ) (t : Machine D)
        → k < delay
        → t.queue.seen_used ≡ t.queue.used_idx
        → ((j : ℕ) → j < k → (polls device j (notified device t)).queue ≡ t.queue)
        → (polls device k (notified device t)).queue.seen_used
          ≢ (polls device k (notified device t)).queue.used_idx
        → wait_loop buffer device delay (notified device t)
          ≡ (ok tt, polls device k (notified device t))
    wait_runs k t lt seen quiet unseen =
        wait_loop-polls device buffer k delay (notified device t) lt
          (λ j r.
            let same : (t.queue.seen_used == t.queue.used_idx) ≡ true = ground arith in
            rw (quiet j r, same) refl)
          (ground (arith, unseen))

    -- On a machine at rest, with a device that obeys, a request for whole sectors and the
    -- consumption of its response succeed, carry out the request, and leave the machine at rest.
    pub request_then_consume :
        (type sector data_at size : ℕ) (s : Machine D)
        → Ready s
        → WholeSectors sector size
        → InOrOut type
        → (t : Machine D) × (request_virtio_blk buffer device type sector data_at size s
            ≡ (ok tt, t))
          × (u : Machine D) × (consume_response_virtio_blk buffer device delay t ≡ (ok tt, u))
          × Ready u
          × (u.ram ≡ ram_after type sector data_at size s.ram (device.disk s.dev))
          × (device.disk u.dev ≡ disk_after type sector data_at size s.ram (device.disk s.dev))
    request_then_consume type sector data_at size s r req in_out =
        let p = r.prepared in
        let (c, h, t, post) =
          request_virtio_blk-Posted buffer laid device type sector data_at size r.spare r.at r.free
            s p req (type_small type in_out) in
        let dev : t.dev ≡ s.dev = sym (ap (λ (t : Machine D). t.dev) post.frame) in
        let ram : t.ram ≡ s.ram = sym (ap (λ (t : Machine D). t.ram) post.frame) in
        let (k, lt, quiet, ans) =
          obeys.answers (rw dev r.is_idle) (posted-Outstanding p post) req in_out in
        let v = polls device k (notified device t) in
        let (free', p') = answered-Prepared p post ans in
        let ram_eq : v.ram ≡ ram_after type sector data_at size s.ram (device.disk s.dev) =
          ans.ram_eq
          ∙ ap (λ m. ram_after type sector data_at size m (device.disk t.dev)) ram
          ∙ ap (λ e. ram_after type sector data_at size s.ram (device.disk e)) dev in
        let disk_eq : device.disk v.dev
            ≡ disk_after type sector data_at size s.ram (device.disk s.dev) =
          ans.disk_eq
          ∙ ap (λ m. disk_after type sector data_at size m (device.disk t.dev)) ram
          ∙ ap (λ e. disk_after type sector data_at size s.ram (device.disk e)) dev in
        (
          notified device t,
          post.runs,
          consumed buffer device c v,
          consume_response_virtio_blk-consumed buffer device (notified device t) v delay type
                data_at size (used_len type size) c
                (wait_runs k t lt (seen_same p post ∙ sym (used_same p post)) quiet
                  (v_unseen p post ans))
                (answered-Response p post ans) in_out (omega (arith, req))
                (used_len_small type size in_out req)
              ∙ ap (λ b. (outcome b, consumed buffer device c v))
                  (used_len-accepted buffer device v type size c ans.status),
          record {
            spare = r.spare;
            at = put_back c (λ k. r.at (suc (suc (suc k))));
            free = free';
            prepared = p';
            is_idle = ans.is_idle;
            bytes = (
              rw ram_eq (ram_after-IsBytes type sector data_at size _ _ in_out r.bytes),
              rw disk_eq (disk_after-IsBytes type sector data_at size _ _ in_out r.bytes),
            );
          },
          ram_eq,
          disk_eq,
        )

    -- The driver as what core/dump.c calls.
    abbrev pub virtio_blk : BlkDriver
    virtio_blk = record {
      Machine = Machine D;
      ram = λ s. s.ram;
      disk = λ s. device.disk s.dev;
      set_ram = λ m s. record s { ram = m };
      read = read_virtio_blk buffer device;
      write = write_virtio_blk buffer device;
      consume = consume_response_virtio_blk buffer device delay;
    }

    set_ram-Ready : (m : Bytes) (s : Machine D) → IsBytes m → Ready s → Ready (record s { ram = m })
    set_ram-Ready m s small r = record {
      spare = r.spare;
      at = r.at;
      free = r.free;
      prepared =
          let p = r.prepared in
          record {
            tracked = p.tracked;
            free_block = p.free_block;
            descs = p.descs;
            some_size = p.some_size;
            seen = p.seen;
            answered = p.answered;
            idx_small = p.idx_small;
          };
      is_idle = r.is_idle;
      bytes = (small, r.bytes.1);
    }

    module _ {m f : Bytes} {s : Machine D} (sector data_at size : ℕ)
        (at : At virtio_blk Ready m f s) (req : WholeSectors sector size) where
      read-Serves :
          Serves virtio_blk Ready
            (read_virtio_blk buffer device sector data_at size)
            (blit m data_at f (virtio_blk_sector_size * sector) size)
            f
            s
      unfolding read_virtio_blk
      read-Serves =
          let (t, e, u, g, r, ram, disk) =
            request_then_consume virtio_blk_t_in sector data_at size s at.is_ready req (inl refl) in
          (
            t,
            e,
            u,
            g,
            record {
              is_ready = r;
              ram_eq =
                  ram
                  ∙ ap (λ m. blit m data_at (device.disk s.dev) (512 * sector) size) at.ram_eq
                  ∙ ap (λ f. blit m data_at f (512 * sector) size) at.disk_eq;
              disk_eq = disk ∙ at.disk_eq;
            },
          )

      write-Serves :
          Serves virtio_blk Ready
            (write_virtio_blk buffer device sector data_at size)
            m
            (blit f (virtio_blk_sector_size * sector) m data_at size)
            s
      unfolding write_virtio_blk
      write-Serves =
          let (t, e, u, g, r, ram, disk) =
            request_then_consume virtio_blk_t_out sector data_at size s at.is_ready req
              (inr refl) in
          (
            t,
            e,
            u,
            g,
            record {
              is_ready = r;
              ram_eq = ram ∙ at.ram_eq;
              disk_eq =
                  disk
                  ∙ ap (λ m. blit (device.disk s.dev) (512 * sector) m data_at size) at.ram_eq
                  ∙ ap (λ f. blit f (512 * sector) m data_at size) at.disk_eq;
            },
          )

    -- With a device that obeys, the driver does what core/dump.c asks of it, so that every theorem
    -- about the dump holds of it.
    pub virtio_blk-Works : Works virtio_blk Ready
    virtio_blk-Works = record {
      ready-IsBytes = λ r. r.bytes;
      set_ram-At = λ m small at. record {
        is_ready = set_ram-Ready m _ small at.is_ready;
        ram_eq = refl;
        disk_eq = at.disk_eq;
      };
      read-Serves = λ sector data_at size at req. read-Serves sector data_at size at req;
      write-Serves = λ sector data_at size at req. write-Serves sector data_at size at req;
    }
