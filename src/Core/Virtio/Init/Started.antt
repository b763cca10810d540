-- ===== src/Core/Virtio/Init/Started.antt =====
-- `init_virtio_blk_queue` (core/drivers/virtio/virtio_queue.c) as a whole.
use switch_os.Base.{
  ℕ, ◌+◌, ◌*◌, ◌%◌, ◌^◌, ◌<◌, ◌≡◌, ◌≢◌, refl, ap, ◌∙◌, true, false, ltb, ◌==◌, ◌∷◌, arith,
}
use switch_os.Base.Action.{Result, ok}
use switch_os.Base.Io.{Wires, Log, to_memory}
use switch_os.Core.Alloc.{Heap, core_calloc}
use switch_os.Core.Virtio.{virtio_invalid_queue_size}
use switch_os.Core.Virtio.Init.{
  Setup, queue_select, queue_size, configure_queue_ptrs, zero_descs, zero_avail, zero_used,
  init_queue_notify_off, start_queue, try_queue, init_virtio_blk_queue,
}
use switch_os.Core.Virtio.Init.Linked.{Fresh, linked, linked-Fresh}

module _ (wires : Wires) (buffer : ℕ → ℕ) where
  module _ (size : ℕ) (s : Setup) (notify : (s.notify_off == 0) ≡ false) where
    start_ok : (start_queue wires buffer size s).0 ≡ ok tt
    unfolding start_queue configure_queue_ptrs init_queue_notify_off
    start_ok = rw notify refl

    start_desc :
        let q = (start_queue wires buffer size s).1.queue in
        q ≡ record (linked size s.queue) { notify_off = q.notify_off }
    unfolding start_queue configure_queue_ptrs init_queue_notify_off
    start_desc = rw notify refl

  abbrev pub asked : Setup → Log
  asked s = to_memory 16 (s.common_cfg + queue_select) (s.queue.num % 2 ^ 16) ∷ s.log

  -- What the device answers when it is asked for the queue's size.
  abbrev pub offered : Setup → ℕ
  offered s = wires.from_memory 16 (s.common_cfg + queue_size) (asked s) % 2 ^ 16

  -- The state once the parts are allocated, with the heap `h` that this left.
  abbrev parted : (n desc avail used : ℕ) → Heap → Setup → Setup
  parted n desc avail used h s = zero_used used (
      zero_avail avail (
        zero_descs desc
          (record s { log = asked s; heap = h; queue = record s.queue { size = n } })))

  try_runs :
      (s : Setup) (n desc avail used : ℕ) (h₁ h₂ h₃ : Heap)
      → offered s ≡ n
      → (n == virtio_invalid_queue_size) ≡ false
      → ltb 0 n ≡ true
      → core_calloc 16 n s.heap ≡ (desc, h₁)
      → (desc == 0) ≡ false
      → core_calloc (4 + 2 * n) 1 h₁ ≡ (avail, h₂)
      → (avail == 0) ≡ false
      → core_calloc (4 + 8 * n) 1 h₂ ≡ (used, h₃)
      → (used == 0) ≡ false
      → try_queue wires buffer s ≡ start_queue wires buffer n (parted n desc avail used h₃ s)
  unfolding try_queue
  try_runs s n desc avail used h₁ h₂ h₃ a b c e f g k l m = rw (a, b, c, e, f, g, k, l, m) refl

  init_runs :
      (s t : Setup)
      → try_queue wires buffer s ≡ (ok tt, t)
      → init_virtio_blk_queue wires buffer s ≡ (ok tt, t)
  unfolding init_virtio_blk_queue
  init_runs s t e = rw e refl

  split : {A : Type 0} → (x : Result A × Setup) → (r : Result A) → x.0 ≡ r → x ≡ (r, x.1)
  split x r e = ap (λ r. (r, x.1)) e

  -- When the device offers a queue and its three parts can be allocated, the queue is initialised.
  pub init_virtio_blk_queue-Fresh :
      (s : Setup) (n desc avail used : ℕ) (h₁ h₂ h₃ : Heap)
      → offered s ≡ n
      → 0 < n
      → n < virtio_invalid_queue_size
      → s.notify_off ≢ 0
      → core_calloc 16 n s.heap ≡ (desc, h₁)
      → desc ≢ 0
      → core_calloc (4 + 2 * n) 1 h₁ ≡ (avail, h₂)
      → avail ≢ 0
      → core_calloc (4 + 8 * n) 1 h₂ ≡ (used, h₃)
      → used ≢ 0
      → (t : Setup) × (init_virtio_blk_queue wires buffer s ≡ (ok tt, t)) × Fresh n t.queue
  init_virtio_blk_queue-Fresh s n desc avail used h₁ h₂ h₃ a more small placed e f g k l m =
      let s₁ = parted n desc avail used h₃ s in
      let notify : (s₁.notify_off == 0) ≡ false = ground (arith, placed) in
      let x = start_queue wires buffer n s₁ in
      let runs : try_queue wires buffer s ≡ (ok tt, x.1) =
        try_runs s n desc avail used h₁ h₂ h₃ a (ground arith) (ground arith) e (ground (arith, f))
          g (ground (arith, k)) l (ground (arith, m))
        ∙ split x (ok tt) (start_ok n s₁ notify) in
      (
        x.1,
        init_runs s x.1 runs,
        linked-Fresh n x.1.queue.notify_off s₁.queue x.1.queue more small refl refl refl
            (start_desc n s₁ notify),
      )
