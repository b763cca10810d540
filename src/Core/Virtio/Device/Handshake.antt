-- ===== src/Core/Virtio/Device/Handshake.antt =====
-- The status handshake of `init_virtio_blk_dev` (core/drivers/virtio/virtio_blk.c).
use switch_os.Base.{ℕ, ◌+◌, ◌/◌, ◌%◌, ◌^◌, ◌≡◌, ◌≢◌, refl, true, false, ◌==◌, List, ◌∷◌, arith}
use switch_os.Base.Action.{
  ⊤, Action, Result, ok, invalid, fault, hang, modify, check, and_then, recover, ◌>>=◌, ◌>>◌,
}
use switch_os.Base.Bits.{bits_or, bits_and}
use switch_os.Base.Keeps.{KeptBy, Keeps, bind-Keeps, check-Keeps}
use switch_os.Base.Io.{Wires}
use switch_os.Core.Header.{CoreHeader}
use switch_os.Core.Virtio.Init.{Setup, set_reg, get_reg, device_status, init_virtio_blk_queue}
use switch_os.Core.Virtio.Device.{
  add_status, store_status, init_virtio_status, negotiate_virtio_features, find_device,
  start_device, report_failure, init_virtio_blk_dev,
}
use switch_os.Core.Virtio.Device.Statuses.{
  statuses, Told, set_reg-Keeps, get_reg-Keeps, modify-Keeps, init_virtio_blk_queue-Keeps,
}

module _ (wires : Wires) (buffer : ℕ → ℕ) where
  -- The first half of the negotiation.
  offer : Action Setup ⊤
  offer = do
    set_reg 32 0 0
    low ← get_reg wires 32 4
    set_reg 32 0 1
    high ← get_reg wires 32 4
    set_reg 32 8 0
    set_reg 32 12 0
    set_reg 32 8 1
    set_reg 32 12 0

  -- What follows the store of the status in it.
  accept : Action Setup ⊤
  accept = do
    status ← get_reg wires 8 device_status
    check (status / 8 % 2 == 1)
    modify (λ s. record s { features = 0 })

  module _ (cfg status : ℕ) (stored : List ℕ) where
    offer-Keeps : Keeps (Told cfg status stored) offer
    unfolding offer
    offer-Keeps =
        let P = Told cfg status stored in
        let reg = set_reg-Keeps cfg status stored in
        let get = get_reg-Keeps cfg status stored wires buffer in
        bind-Keeps P (reg 32 0 0 (λ e. omega (arith, e))) (λ u. bind-Keeps P (get 32 4) (λ low.
          bind-Keeps P (reg 32 0 1 (λ e. omega (arith, e))) (λ u. bind-Keeps P (get 32 4) (λ high.
            bind-Keeps P (reg 32 8 0 (λ e. omega (arith, e))) (λ u.
              bind-Keeps P (reg 32 12 0 (λ e. omega (arith, e))) (λ u.
                bind-Keeps P (reg 32 8 1 (λ e. omega (arith, e)))
                  (λ u. reg 32 12 0 (λ e. omega (arith, e)))))))))

    accept-Keeps : Keeps (Told cfg status stored) accept
    unfolding accept
    accept-Keeps =
        let P = Told cfg status stored in
        bind-Keeps P (get_reg-Keeps cfg status stored wires buffer 8 device_status) (λ st.
          bind-Keeps P (check-Keeps P (st / 8 % 2 == 1)) (λ u.
            modify-Keeps cfg status stored wires buffer (λ s. record s { features = 0 }) (λ s. refl)
              (λ s. refl) (λ s. refl)))

    -- A store of the status after a flag was added.
    added-Told :
        (flag next : ℕ) (s : Setup)
        → bits_or 8 status flag ≡ next
        → next % 2 ^ 8 ≡ next
        → Told cfg status stored s
        → Told cfg next (next ∷ stored) (store_status (add_status flag s)).1
    added-Told flag next s e f p =
        let here : (s.common_cfg + 20 == cfg + 20) ≡ true = ground (arith, p.cfg_eq) in
        record {
          cfg_eq = p.cfg_eq;
          status_eq = rw (p.status_eq, e) refl;
          stored_eq = rw (here, p.stored_eq, p.status_eq, e, f) refl;
        }

  negotiate_split :
      (s : Setup)
      → negotiate_virtio_features wires s
        ≡ (offer >> modify (add_status 8) >> store_status >> accept) s
  unfolding negotiate_virtio_features offer accept bits_and
  negotiate_split s = refl

  offer-Told :
      (cfg status : ℕ) (stored : List ℕ) (s : Setup)
      → Told cfg status stored s
      → Told cfg status stored (offer s).1
  unfolding offer
  offer-Told cfg status stored s p = (offer-Keeps cfg status stored).kept s p

  offer_ok : (s : Setup) → offer s ≡ (ok tt, (offer s).1)
  unfolding offer
  offer_ok s = refl

  negotiate_virtio_features-Told :
      (cfg : ℕ) (stored : List ℕ) (s : Setup)
      → Told cfg 3 stored s
      → KeptBy (Told cfg 11 (11 ∷ stored)) (negotiate_virtio_features wires s)
  unfolding bits_or
  negotiate_virtio_features-Told cfg stored s p =
      let s₁ = (offer s).1 in
      let p₁ = added-Told cfg 3 stored 8 11 s₁ refl refl (offer-Told cfg 3 stored s p) in
      rw (negotiate_split s, offer_ok s)
        ((accept-Keeps cfg 11 (11 ∷ stored)).kept (store_status (add_status 8 s₁)).1 p₁)

  init_virtio_status-Told :
      (s : Setup)
      → Told s.common_cfg 3 (3 ∷ 1 ∷ 0 ∷ statuses s.common_cfg s.log) (init_virtio_status s).1
  unfolding init_virtio_status bits_or
  init_virtio_status-Told s =
      let here : (s.common_cfg + 20 == s.common_cfg + 20) ≡ true = ground arith in
      record { cfg_eq = refl; status_eq = refl; stored_eq = rw here refl }

  init_ok : (s : Setup) → init_virtio_status s ≡ (ok tt, (init_virtio_status s).1)
  unfolding init_virtio_status
  init_ok s = refl

  -- The status register has been taken through `RESET`, `ACKNOWLEDGE`, `DRIVER` and `FEATURES_OK`,
  -- and to `DRIVER_OK` exactly when the result is success.
  abbrev pub Handshaken : ℕ → List ℕ → Result ⊤ × Setup → Type 0
  Handshaken cfg before (ok a, t) = statuses cfg t.log ≡ 15 ∷ 11 ∷ 3 ∷ 1 ∷ 0 ∷ before
  Handshaken cfg before (invalid, t) =
      (t.common_cfg ≡ cfg) × (statuses cfg t.log ≡ 11 ∷ 3 ∷ 1 ∷ 0 ∷ before)
  Handshaken cfg before (fault, t) = ⊥
  Handshaken cfg before (hang, t) = ⊥

  module _ (cfg : ℕ) (before : List ℕ) where
    abbrev Asked : Setup → Type 0
    Asked = Told cfg 11 (11 ∷ 3 ∷ 1 ∷ 0 ∷ before)

    -- A step before the end keeps the status; an error there leaves it as it is.
    and_then-Handshaken :
        (x : Result ⊤ × Setup) (f : ⊤ → Action Setup ⊤)
        → KeptBy Asked x
        → ((s : Setup) → Asked s → Handshaken cfg before (f tt s))
        → Handshaken cfg before (and_then x f)
    and_then-Handshaken (ok a, s) f p q = q s p
    and_then-Handshaken (invalid, s) f p q = (p.cfg_eq, p.stored_eq)
    and_then-Handshaken (fault, s) f p q = p
    and_then-Handshaken (hang, s) f p q = p

    last_step :
        (s : Setup) → Asked s → Handshaken cfg before ((modify (add_status 4) >> store_status) s)
    unfolding bits_or
    last_step s p = (added-Told cfg 11 (11 ∷ 3 ∷ 1 ∷ 0 ∷ before) 4 15 s refl refl p).stored_eq

  start_device-Handshaken :
      (s : Setup)
      → Handshaken s.common_cfg (statuses s.common_cfg s.log) (start_device wires buffer s)
  unfolding start_device
  start_device-Handshaken s =
      let cfg = s.common_cfg in
      let before = statuses cfg s.log in
      rw (init_ok s) (
        and_then-Handshaken cfg before (negotiate_virtio_features wires (init_virtio_status s).1) _
          (negotiate_virtio_features-Told cfg (3 ∷ 1 ∷ 0 ∷ before) (init_virtio_status s).1
            (init_virtio_status-Told s))
          (λ t p.
            and_then-Handshaken cfg before
              (init_virtio_blk_queue wires buffer (record t { queue = record t.queue { num = 0 } }))
              _
              ((init_virtio_blk_queue-Keeps cfg 11 (11 ∷ 3 ∷ 1 ∷ 0 ∷ before) wires buffer).kept _
                (record { cfg_eq = p.cfg_eq; status_eq = p.status_eq; stored_eq = p.stored_eq }))
              (last_step cfg before)))

  -- The same, with `FAILED` stored last when the result is `ERR_INVALID`.
  abbrev pub Reported : ℕ → List ℕ → Result ⊤ × Setup → Type 0
  Reported cfg before (ok a, t) = statuses cfg t.log ≡ 15 ∷ 11 ∷ 3 ∷ 1 ∷ 0 ∷ before
  Reported cfg before (invalid, t) = statuses cfg t.log ≡ 128 ∷ 11 ∷ 3 ∷ 1 ∷ 0 ∷ before
  Reported cfg before (fault, t) = ⊥
  Reported cfg before (hang, t) = ⊥

  reported :
      (cfg : ℕ) (before : List ℕ) (x : Result ⊤ × Setup)
      → cfg ≢ 0
      → Handshaken cfg before x
      → Reported cfg before (recover report_failure x)
  unfolding report_failure
  reported cfg before (ok a, t) mapped h = h
  reported cfg before (invalid, t) mapped (same, h) =
      let e : (t.common_cfg == 0) ≡ false = ground (arith, same, mapped) in
      let here : (t.common_cfg + 20 == cfg + 20) ≡ true = ground (arith, same) in
      rw e (rw (here, h) refl)
  reported cfg before (fault, t) mapped h = h
  reported cfg before (hang, t) mapped h = h

  dev_runs :
      (g : CoreHeader) (fuel : ℕ) (s s₁ : Setup)
      → find_device wires g fuel s ≡ (ok tt, s₁)
      → init_virtio_blk_dev wires buffer g fuel s
        ≡ recover report_failure (start_device wires buffer s₁)
  unfolding init_virtio_blk_dev
  dev_runs g fuel s s₁ e = rw e refl

  -- With the device found and its configuration mapped, `init_virtio_blk_dev` ends, and the status
  -- register has been taken through `RESET`, `ACKNOWLEDGE`, `DRIVER` and `FEATURES_OK` in this
  -- order, and then to `DRIVER_OK` when the result is success and to `FAILED` when it is
  -- `ERR_INVALID`.
  pub init_virtio_blk_dev-Reported :
      (g : CoreHeader) (fuel : ℕ) (s s₁ : Setup)
      → find_device wires g fuel s ≡ (ok tt, s₁)
      → s₁.common_cfg ≢ 0
      → Reported s₁.common_cfg
          (statuses s₁.common_cfg s₁.log)
          (init_virtio_blk_dev wires buffer g fuel s)
  init_virtio_blk_dev-Reported g fuel s s₁ e mapped = rw (dev_runs g fuel s s₁ e) (
      reported s₁.common_cfg (statuses s₁.common_cfg s₁.log) (start_device wires buffer s₁) mapped
        (start_device-Handshaken s₁))
