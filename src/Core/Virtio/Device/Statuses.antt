-- ===== src/Core/Virtio/Device/Statuses.antt =====
-- The device status register in the initialisation of core/drivers/virtio: what is stored there,
-- and that the initialisation of the queue does not touch it.
use switch_os.Base.{
  ℕ, ◌+◌, ◌*◌, ◌/◌, ◌%◌, ◌^◌, ◌≡◌, ◌≢◌, refl, ◌∙◌, false, not, ltb, ◌==◌, ◌&&◌, List, [], ◌∷◌,
  if◌then◌else◌, arith,
}
use switch_os.Base.Action.{⊤, Action, ok, gets, modify, check, ◌>>=◌}
use switch_os.Base.Keeps.{Keeps, bind-Keeps, check-Keeps, on_invalid-Keeps}
use switch_os.Base.Io.{Wires, Log, to_port, to_memory}
use switch_os.Core.Alloc.{core_calloc}
use switch_os.Core.Virtio.{Queue, set_free_head, virtio_invalid_queue_size}
use switch_os.Core.Virtio.Init.{
  link_loop, last_desc, zero_descs, zero_avail, zero_used, Setup, set_reg, get_reg, on_queue,
  alloc_part, device_status, configure_queue_ptrs, init_queue_notify_off, start_queue, try_queue,
  init_virtio_blk_queue,
}

-- The values stored at `device_status` of the common configuration at `cfg`, latest first.
abbrev pub statuses : ℕ → Log → List ℕ
statuses cfg [] = []
statuses cfg (to_port width port value ∷ log) = statuses cfg log
statuses cfg (to_memory width addr value ∷ log) =
    let rest = statuses cfg log in if addr == cfg + device_status then value ∷ rest else rest

module _ (cfg status : ℕ) (stored : List ℕ) where
  -- The status and what was stored of it.
  pub record Told (s : Setup) : Type 0 where
    pub cfg_eq : s.common_cfg ≡ cfg
    pub status_eq : s.status ≡ status
    pub stored_eq : statuses cfg s.log ≡ stored

  pub set_reg-Keeps :
      (width reg value : ℕ) → reg ≢ device_status → Keeps Told (set_reg width reg value)
  set_reg-Keeps width reg value other = record {
    kept = λ s p.
        let e : (s.common_cfg + reg == cfg + device_status) ≡ false =
          ground (arith, p.cfg_eq, other) in
        record { cfg_eq = p.cfg_eq; status_eq = p.status_eq; stored_eq = rw e p.stored_eq };
  }

  -- A step that leaves the log, the status and the configuration's place alone.
  pub same-Keeps :
      {A : Type 0} (f : Setup → A) (g : Setup → Setup)
      → ((s : Setup) → (g s).common_cfg ≡ s.common_cfg)
      → ((s : Setup) → (g s).status ≡ s.status)
      → ((s : Setup) → (g s).log ≡ s.log)
      → Keeps Told (λ s. (ok (f s), g s))
  same-Keeps f g a b c = record {
    kept = λ s p. record {
      cfg_eq = a s ∙ p.cfg_eq;
      status_eq = b s ∙ p.status_eq;
      stored_eq = rw (c s) p.stored_eq;
    };
  }

  module _ (wires : Wires) (buffer : ℕ → ℕ) where
    state-Keeps : Keeps Told (gets (λ (s : Setup). s))
    state-Keeps = same-Keeps (λ s. s) (λ s. s) (λ s. refl) (λ s. refl) (λ s. refl)

    pub modify-Keeps :
        (f : Setup → Setup)
        → ((s : Setup) → (f s).common_cfg ≡ s.common_cfg)
        → ((s : Setup) → (f s).status ≡ s.status)
        → ((s : Setup) → (f s).log ≡ s.log)
        → Keeps Told (modify f)
    modify-Keeps f a b c = same-Keeps (λ s. tt) f a b c

    pub on_queue-Keeps : (f : Queue → Queue) → Keeps Told (on_queue f)
    on_queue-Keeps f =
        modify-Keeps (λ s. record s { queue = f s.queue }) (λ s. refl) (λ s. refl) (λ s. refl)

    pub get_reg-Keeps : (width reg : ℕ) → Keeps Told (get_reg wires width reg)
    get_reg-Keeps width reg =
        same-Keeps (λ s. wires.from_memory width (s.common_cfg + reg) s.log % 2 ^ width) (λ s. s)
          (λ s. refl) (λ s. refl) (λ s. refl)

    alloc_part-Keeps : (count size : ℕ) → Keeps Told (alloc_part count size)
    alloc_part-Keeps count size =
        same-Keeps (λ s. (core_calloc count size s.heap).0)
          (λ s. record s { heap = (core_calloc count size s.heap).1 }) (λ s. refl) (λ s. refl)
          (λ s. refl)

    configure-Keeps : Keeps Told configure_queue_ptrs
    unfolding configure_queue_ptrs
    configure-Keeps = bind-Keeps Told state-Keeps (λ s.
        bind-Keeps Told (reg 16 22 s.queue.num (λ e. omega (arith, e))) (λ u.
          bind-Keeps Told (reg 32 32 s.desc_ptr (λ e. omega (arith, e))) (λ u.
            bind-Keeps Told (reg 32 36 (s.desc_ptr / 2 ^ 32) (λ e. omega (arith, e))) (λ u.
              bind-Keeps Told (reg 32 40 s.avail_ptr (λ e. omega (arith, e))) (λ u.
                bind-Keeps Told (reg 32 44 (s.avail_ptr / 2 ^ 32) (λ e. omega (arith, e))) (λ u.
                  bind-Keeps Told (reg 32 48 s.used_ptr (λ e. omega (arith, e)))
                    (λ u. reg 32 52 (s.used_ptr / 2 ^ 32) (λ e. omega (arith, e)))))))))
      where
        reg : (width reg value : ℕ) → reg ≢ device_status → Keeps Told (set_reg width reg value)
        reg = set_reg-Keeps

    notify-Keeps : Keeps Told (init_queue_notify_off wires)
    unfolding init_queue_notify_off
    notify-Keeps = bind-Keeps Told state-Keeps (λ s.
        bind-Keeps Told (check-Keeps Told (not (s.notify_off == 0))) (λ u.
          bind-Keeps Told (get_reg-Keeps 16 30) (λ off. on_queue-Keeps (λ q. record q {
            notify_off = (s.notify_off + off * s.multiplier % 2 ^ 32) % 2 ^ 64;
          }))))

    start-Keeps : (size : ℕ) → Keeps Told (start_queue wires buffer size)
    unfolding start_queue
    start-Keeps size =
        bind-Keeps Told
          (modify-Keeps (λ s. record s { avail_flags = 1 }) (λ s. refl) (λ s. refl) (λ s. refl))
          (λ u. bind-Keeps Told configure-Keeps (λ u.
            bind-Keeps Told (on_queue-Keeps (link_loop size 0)) (λ u.
              bind-Keeps Told (on_queue-Keeps last_desc) (λ u.
                bind-Keeps Told (on_queue-Keeps (set_free_head 0)) (λ u.
                  bind-Keeps Told (on_queue-Keeps (λ q. record q { seen_used = 0 })) (λ u.
                    bind-Keeps Told notify-Keeps
                      (λ u. set_reg-Keeps 16 28 1 (λ e. omega (arith, e)))))))))

    try-Keeps : Keeps Told (try_queue wires buffer)
    unfolding try_queue
    try-Keeps =
        bind-Keeps Told (same-Keeps (λ s. s.queue.num) (λ s. s) (λ s. refl) (λ s. refl) (λ s. refl))
          (λ num. bind-Keeps Told (set_reg-Keeps 16 22 num (λ e. omega (arith, e))) (λ u.
            bind-Keeps Told (get_reg-Keeps 16 24) (λ size.
              bind-Keeps Told
                (check-Keeps Told (not (size == virtio_invalid_queue_size) && ltb 0 size))
                (λ u. bind-Keeps Told (on_queue-Keeps (λ q. record q { size = size })) (λ u.
                  part 16 size zero_descs _ (λ p s. refl) (λ p s. refl) (λ p s. refl)
                    (part (4 + 2 * size) 1 zero_avail _ (λ p s. refl) (λ p s. refl) (λ p s. refl)
                      (part (4 + 8 * size) 1 zero_used _ (λ p s. refl) (λ p s. refl) (λ p s. refl)
                        (start-Keeps size))))))))
      where
        part :
            (count size : ℕ) (zeroed : ℕ → Setup → Setup) (rest : Action Setup ⊤)
            → ((p : ℕ) (s : Setup) → (zeroed p s).common_cfg ≡ s.common_cfg)
            → ((p : ℕ) (s : Setup) → (zeroed p s).status ≡ s.status)
            → ((p : ℕ) (s : Setup) → (zeroed p s).log ≡ s.log)
            → Keeps Told rest
            → Keeps Told (
                alloc_part count size >>= λ p.
                modify (zeroed p) >>= λ u. check (not (p == 0)) >>= λ w. rest)
        part count size zeroed rest a b c q = bind-Keeps Told (alloc_part-Keeps count size) (λ p.
            bind-Keeps Told (modify-Keeps (zeroed p) (a p) (b p) (c p))
              (λ u. bind-Keeps Told (check-Keeps Told (not (p == 0))) (λ w. q)))

    -- On no branch does the initialisation of the queue touch the device status.
    pub init_virtio_blk_queue-Keeps : Keeps Told (init_virtio_blk_queue wires buffer)
    unfolding init_virtio_blk_queue
    init_virtio_blk_queue-Keeps =
        on_invalid-Keeps Told (modify-Keeps _ (λ s. refl) (λ s. refl) (λ s. refl)) try-Keeps
