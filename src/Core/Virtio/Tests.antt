-- ===== src/Core/Virtio/Tests.antt =====
-- Machines on which the theorems about the virtio block driver are applied.
use switch_os.Base.{◌<◌, ℕ, inr, suc, ◌+◌, ◌≡◌, refl, false, ◌==◌, if◌then◌else◌, arith}
use switch_os.Base.Action.{ok, invalid, fault}
use switch_os.Core.Alloc.Example.{buffer, buffer-Laid, small_block, small_free, small_block-Tracked}
use switch_os.Core.Disk.{Works}
use switch_os.Core.Virtio.{Queue, see_used, alloc_queue_desc, free_queue_desc}
use switch_os.Core.Virtio.FreeDescs.{FreeDescs, front, free-alloc_queue_desc}
use switch_os.Core.Virtio.Blk.{Machine, consume_response_virtio_blk, wait_loop}
use switch_os.Core.Virtio.Blk.Chains.{Chain}
use switch_os.Core.Virtio.Blk.Consuming.{
  Response, accepted, outcome, consumed, consume_response_virtio_blk-consumed,
}
use switch_os.Core.Virtio.Blk.Driver.{Ready, virtio_blk, virtio_blk-Works}
use switch_os.Core.Virtio.Blk.Ramdisk.{Ramdisk, ramdisk, AtRest, ramdisk-Obeys}
use switch_os.Core.Virtio.Blk.Guards.{consume_response_virtio_blk_outside}

-- A queue of four descriptors, all free.
abbrev chain_next : ℕ → ℕ
chain_next k = if k == 0 then 1 else if k == 1 then 2 else if k == 2 then 3 else 0xffff

abbrev list_at : ℕ → ℕ
list_at k = if k == 4 then 0xffff else k

abbrev fresh : Queue
fresh = record {
  num = 0;
  size = 4;
  seen_used = 0;
  notify_off = 0xfe003000;
  free_head = 0;
  desc = λ j. record { addr = 0; len = 0; flags = 0; next = chain_next j };
  avail_idx = 0;
  avail_ring = λ j. 0;
  used_idx = 0;
  used_ring = λ j. record { id = 0; len = 0 };
}

fresh-FreeDescs : FreeDescs fresh 4 list_at
fresh-FreeDescs = record {
  short = omega arith;
  first = refl;
  last = refl;
  link = λ k p. ground arith;
  inside = λ k p. ground arith;
  different = λ k l p q e. ground arith;
}

free-alloc_queue_desc_example :
    (q' q'' : Queue) × (alloc_queue_desc fresh ≡ (ok (list_at 0), q'))
    × (list_at 0 < fresh.size)
    × FreeDescs q' 3 (λ k. list_at (suc k))
    × (free_queue_desc (list_at 0) q' ≡ (ok tt, q''))
    × FreeDescs q'' 4 (front (list_at 0) (λ k. list_at (suc k)))
free-alloc_queue_desc_example = free-alloc_queue_desc fresh 3 list_at fresh-FreeDescs

abbrev machine : Machine Ramdisk
machine = record {
  ram = λ x. 7;
  heap = small_block;
  queue = fresh;
  dev = record { content = λ x. 9; pending = false };
}

machine-Ready : Ready buffer buffer-Laid ramdisk AtRest machine
machine-Ready = record {
  spare = 1;
  at = list_at;
  free = small_free;
  prepared = record {
    tracked = small_block-Tracked;
    free_block = omega arith;
    descs = fresh-FreeDescs;
    some_size = omega arith;
    seen = refl;
    answered = refl;
    idx_small = omega arith;
  };
  is_idle = refl;
  bytes = (λ x. omega arith, λ x. omega arith);
}

virtio_blk-Works_example :
    Works
      (virtio_blk buffer buffer-Laid ramdisk AtRest 2 ramdisk-Obeys)
      (Ready buffer buffer-Laid ramdisk AtRest)
virtio_blk-Works_example = virtio_blk-Works buffer buffer-Laid ramdisk AtRest 2 ramdisk-Obeys

-- The last two descriptors only.
abbrev two_left : Machine Ramdisk
two_left = record machine { queue = record fresh { free_head = 2 } }

-- A write in descriptors 0, 1 and 2 that the device has answered with an I/O error.
abbrev chain : Chain
chain = record { header = buffer 0; desc1 = 0; desc2 = 1; desc3 = 2 }

abbrev failed : Machine Ramdisk
failed = record machine {
  heap = record small_block { mem = λ x. if x == buffer 0 + 16 then 1 else 0 };
  queue = record fresh {
    desc = λ j.
        if j == 0
        then (record { addr = buffer 0; len = 16; flags = 1; next = 1 })
        else if j == 1
        then (record { addr = 0x1000; len = 512; flags = 1; next = 2 })
        else (record { addr = buffer 0 + 16; len = 1; flags = 2; next = 3 });
    used_idx = 1;
    used_ring = λ j. record { id = 0; len = 1 };
  };
}

failed-Response : Response buffer ramdisk failed 1 0x1000 512 1 chain
failed-Response = record {
  short = omega arith;
  unseen = λ e. omega (arith, e);
  elem = refl;
  links = record {
    first = refl;
    second = refl;
    third_addr = refl;
    third_len = refl;
    third_flags = refl;
    inside = (omega arith, omega arith, omega arith);
    different = (λ e. omega (arith, e), λ e. omega (arith, e), λ e. omega (arith, e));
  };
}

failed_wait : wait_loop buffer ramdisk 1 failed ≡ (ok tt, failed)
unfolding wait_loop
failed_wait = refl

consume_response_virtio_blk-consumed_example :
    consume_response_virtio_blk buffer ramdisk 1 failed
    ≡ (outcome (accepted buffer ramdisk 1 512 1 chain failed), consumed buffer ramdisk chain failed)
consume_response_virtio_blk-consumed_example =
    consume_response_virtio_blk-consumed buffer ramdisk failed failed 1 1 0x1000 512 1 chain
      failed_wait failed-Response (inr refl) (omega arith) (omega arith)

failed_is_refused : outcome (accepted buffer ramdisk 1 512 1 chain failed) ≡ invalid
failed_is_refused = refl

-- The device names descriptor 9 of four.
abbrev stray : Machine Ramdisk
stray = record failed {
  queue = record failed.queue { used_ring = λ j. record { id = 9; len = 1 } };
}

stray_wait : wait_loop buffer ramdisk 1 stray ≡ (ok tt, stray)
unfolding wait_loop
stray_wait = refl

consume_response_virtio_blk_outside_example :
    consume_response_virtio_blk buffer ramdisk 1 stray
    ≡ (fault, record stray { queue = see_used stray.queue })
consume_response_virtio_blk_outside_example =
    consume_response_virtio_blk_outside buffer ramdisk stray stray 1 stray_wait
      (λ e. omega (arith, e)) (omega arith)
