-- ===== src/Core/Virtio/Blk/Ramdisk.antt =====
-- A device that answers at the first poll after it is notified, for examples of its contract.
use switch_os.Base.{
  ℕ, zero, suc, ◌+◌, ◌%◌, ◌^◌, ◌<◌, ◌≡◌, refl, ap, Bool, true, false, ◌==◌, if◌then◌else◌, arith,
}
use switch_os.Base.Bytes.{Bytes, load32, load64}
use switch_os.Core.Virtio.{Desc}
use switch_os.Core.Virtio.Blk.{Machine, Device}
use switch_os.Core.Virtio.Blk.Chains.{Chain}
use switch_os.Core.Virtio.Blk.Answering.{
  ram_after, disk_after, used_len, notified, polls, Outstanding, Answered, Obeys,
}

pub record Ramdisk : Type 0 where
  pub content : Bytes
  pub pending : Bool

-- The chain with these parts is answered.
abbrev pub answer_with : (i status type sector data_at size : ℕ) → Machine Ramdisk → Machine Ramdisk
answer_with i status type sector data_at size s = record {
  ram = ram_after type sector data_at size s.ram s.dev.content;
  heap = record s.heap { mem = λ x. if x == status then 0 else s.heap.mem x };
  queue = record s.queue {
    used_idx = (s.queue.used_idx + 1) % 2 ^ 16;
    used_ring = λ j.
        if j == s.queue.used_idx % s.queue.size
        then (record { id = i; len = used_len type size })
        else s.queue.used_ring j;
  };
  dev = record {
    content = disk_after type sector data_at size s.ram s.dev.content;
    pending = false;
  };
}

-- The chain at the head of the available ring is read from memory and answered.
unfoldable pub answer : Machine Ramdisk → Machine Ramdisk
answer s =
    let i = s.queue.avail_ring (s.queue.used_idx % s.queue.size) in
    let d1 = s.queue.desc i in
    let d2 = s.queue.desc d1.next in
    let d3 = s.queue.desc d2.next in
    answer_with i d3.addr (load32 s.heap.mem d1.addr) (load64 s.heap.mem (d1.addr + 8)) d2.addr
      d2.len s

abbrev pub ramdisk : Device Ramdisk
ramdisk = record {
  disk = λ r. r.content;
  notify = λ a v s. record s { dev = record s.dev { pending = true } };
  poll = λ s. if s.dev.pending then answer s else s;
}

abbrev pub AtRest : Ramdisk → Type 0
AtRest r = r.pending ≡ false

answer_eq :
    (s : Machine Ramdisk) (i d2 d3 header type sector data_at size status : ℕ)
    → s.queue.avail_ring (s.queue.used_idx % s.queue.size) ≡ i
    → (s.queue.desc i).next ≡ d2
    → (s.queue.desc i).addr ≡ header
    → (s.queue.desc d2).next ≡ d3
    → (s.queue.desc d2).addr ≡ data_at
    → (s.queue.desc d2).len ≡ size
    → (s.queue.desc d3).addr ≡ status
    → load32 s.heap.mem header ≡ type
    → load64 s.heap.mem (header + 8) ≡ sector
    → answer s ≡ answer_with i status type sector data_at size s
unfolding answer
answer_eq s i d2 d3 header type sector data_at size status a b c e f g h k l =
    rw (a, b, c, e, f, g, h, k, l)

-- The machine after the first poll.
abbrev polled : (i status type sector data_at size : ℕ) → Machine Ramdisk → Machine Ramdisk
polled i status type sector data_at size s =
    answer_with i status type sector data_at size
      (record s { dev = record s.dev { pending = true } })

module _ (s : Machine Ramdisk) (c : Chain) (type sector data_at size : ℕ) where
  polls_at_first : (j : ℕ) → j < 1 → (polls ramdisk j (notified ramdisk s)).queue ≡ s.queue
  unfolding polls
  polls_at_first zero r = refl
  polls_at_first (suc j) r = absurd (omega arith)

  polls_then :
      Outstanding ramdisk s type sector data_at size c
      → polls ramdisk 1 (notified ramdisk s)
        ≡ polled c.desc1 (c.header + 16) type sector data_at size s
  unfolding polls
  polls_then o =
      answer_eq (notified ramdisk s) c.desc1 c.desc2 c.desc3 c.header type sector data_at size
        (c.header + 16) o.ring (ap (λ (d : Desc). d.next) o.links.first)
        (ap (λ (d : Desc). d.addr) o.links.first) (ap (λ (d : Desc). d.next) o.links.second)
        (ap (λ (d : Desc). d.addr) o.links.second) (ap (λ (d : Desc). d.len) o.links.second)
        o.links.third_addr o.asks.type_eq o.asks.sector_eq

  polled-Answered :
      Answered ramdisk AtRest s type sector data_at size c
        (polled c.desc1 (c.header + 16) type sector data_at size s)
  polled-Answered =
      let here : (s.queue.used_idx % s.queue.size == s.queue.used_idx % s.queue.size) ≡ true =
        ground arith in
      let there : (c.header + 16 == c.header + 16) ≡ true = ground arith in
      record {
        is_idle = refl;
        ram_eq = refl;
        disk_eq = refl;
        status = rw there refl;
        same_mem = λ x ne. let e : (x == c.header + 16) ≡ false = ground (arith, ne) in rw e refl;
        same_head = λ j. refl;
        queue = refl;
        elem = rw here refl;
      }

pub ramdisk-Obeys : Obeys ramdisk AtRest 2
ramdisk-Obeys = record {
  answers = λ {s} {type} {sector} {data_at} {size} {c} idle o req in_out. (
    1,
    omega arith,
    polls_at_first s c type sector data_at size,
    rw (polls_then s c type sector data_at size o) (polled-Answered s c type sector data_at size),
  );
}
