-- ===== src/Core/Virtio/Device.antt =====
-- The initialisation of the device in core/drivers/virtio/virtio_blk.c: its capabilities, the status
-- handshake and the features.
pub mod Statuses
pub mod Handshake
mod Tests
use switch_os.Base.{
  ℕ, zero, suc, ◌+◌, ◌*◌, ◌/◌, ◌%◌, ◌^◌, Bool, true, false, not, ltb, leb, ◌==◌, ◌&&◌, ◌||◌,
  if◌then◌else◌,
}
use switch_os.Base.Action.{
  ⊤, Action, Result, ok, hang, pure, fail, gets, modify, check, on_invalid, ◌>>=◌, ◌>>◌,
}
use switch_os.Base.Bits.{bits_or, bits_and}
use switch_os.Base.Io.{Wires, Log, read, write}
use switch_os.Core.Header.{CoreHeader}
use switch_os.Core.Virtio.{Queue}
use switch_os.Core.Virtio.Init.{
  Setup, on_log, on_queue, set_reg, get_reg, device_feature_select, device_feature,
  driver_feature_select, driver_feature, device_status, init_virtio_blk_queue,
}
use switch_os.Pci.{
  PciDev, PciBar, PciBarType, pci_bar_io, pci_bar_memory, pci_read, pci_write, pci_get_bar,
  init_pci_dev, pci_cap_iter_init, pci_cap_iter_next, pci_status, pci_command, pci_base_address_0,
  pci_base_address_num,
}

abbrev pub virtio_blk_vendor_id : ℕ
virtio_blk_vendor_id = 0x1af4

abbrev pub virtio_blk_device_id : ℕ
virtio_blk_device_id = 0x1001

abbrev pub virtio_blk_requested_features : ℕ
virtio_blk_requested_features = 0

abbrev pub virtio_pci_cap_vendor : ℕ
virtio_pci_cap_vendor = 9

abbrev pub virtio_pci_cap_common_cfg : ℕ
virtio_pci_cap_common_cfg = 1

abbrev pub virtio_pci_cap_notify_cfg : ℕ
virtio_pci_cap_notify_cfg = 2

-- The fields of `struct virtio_pci_cap` and `struct virtio_pci_notify_cap`, as offsets.
abbrev pub cap_vndr : ℕ
cap_vndr = 0

abbrev pub cfg_type : ℕ
cfg_type = 3

abbrev pub bar : ℕ
bar = 4

abbrev pub cap_offset : ℕ
cap_offset = 8

abbrev pub notify_off_multiplier : ℕ
notify_off_multiplier = 16

abbrev pub virtio_status_acknowledge : ℕ
virtio_status_acknowledge = 1

abbrev pub virtio_status_driver : ℕ
virtio_status_driver = 2

abbrev pub virtio_status_driver_ok : ℕ
virtio_status_driver_ok = 4

abbrev pub virtio_status_features_ok : ℕ
virtio_status_features_ok = 8

abbrev pub virtio_status_failed : ℕ
virtio_status_failed = 128

-- The configuration types from `VIRTIO_PCI_CAP_COMMON_CFG` to `VIRTIO_PCI_CAP_VENDOR_CFG`.
abbrev pub is_cfg_type : ℕ → Bool
is_cfg_type t = (leb 1 t && leb t 5) || t == 8 || t == 9

abbrev pub is_memory : PciBarType → Bool
is_memory pci_bar_memory = true
is_memory pci_bar_io = false

-- `status |= flag`, and the store of the status.
abbrev pub add_status : ℕ → Setup → Setup
add_status flag s = record s { status = bits_or 8 s.status flag }

abbrev pub store_status : Action Setup ⊤
store_status s = set_reg 8 device_status s.status s

unfoldable pub init_virtio_status : Action Setup ⊤
init_virtio_status = do
  modify (λ s. record s { status = 0 })
  store_status
  modify (add_status virtio_status_acknowledge)
  store_status
  modify (add_status virtio_status_driver)
  store_status

-- The cleanup of `init_virtio_blk_dev`, which writes 16 bits to the 8-bit register.
unfoldable pub report_failure : Action Setup ⊤
report_failure s =
    if s.common_cfg == 0 then (ok tt, s) else set_reg 16 device_status virtio_status_failed s

module _ (wires : Wires) where
  abbrev pub cap_read : ℕ → ℕ → Action Setup ℕ
  cap_read width offset s = on_log (pci_read wires width s.pci_dev.addr offset) s

  unfoldable pub use_common_cfg : PciBar → Action Setup ⊤
  use_common_cfg b = check (is_memory b.type) >> modify (λ s. record s { common_cfg = b.addr })

  unfoldable pub use_notify_cfg : ℕ → PciBar → Action Setup ⊤
  use_notify_cfg off b = do
    check (is_memory b.type)
    offset ← cap_read 32 (off + cap_offset)
    modify (λ s. record s { notify_off = (b.addr + offset) % 2 ^ 64 })
    multiplier ← cap_read 32 (off + notify_off_multiplier)
    modify (λ s. record s { multiplier = multiplier })

  -- The body of the loop, for the capability at `off`.
  unfoldable pub parse_cap : ℕ → Action Setup ⊤
  parse_cap off = do
    vendor ← cap_read 8 (off + cap_vndr)
    if not (vendor == virtio_pci_cap_vendor) then pure tt else (do
      type ← cap_read 8 (off + cfg_type)
      check (is_cfg_type type)
      bar_num ← cap_read 8 (off + bar)
      pci_bar ← (λ s. on_log (pci_get_bar wires s.pci_dev bar_num) s)
      if type == virtio_pci_cap_common_cfg
          then use_common_cfg pci_bar
          else if type == virtio_pci_cap_notify_cfg
          then use_notify_cfg off pci_bar
          else pure tt)

  unfoldable pub caps_loop : ℕ → ℕ → Action Setup ⊤
  caps_loop zero off = fail hang
  caps_loop (suc fuel) off =
      let rest : ℕ → Action Setup ⊤ = caps_loop fuel in
      if off == 0
      then pure tt
      else parse_cap off >> (λ s. on_log (pci_cap_iter_next wires s.pci_dev off) s) >>= rest

  unfoldable pub parse_virtio_blk_caps : ℕ → Action Setup ⊤
  parse_virtio_blk_caps fuel = do
    status ← cap_read 16 pci_status
    check (status / 16 % 2 == 1)
    first ← (λ s. on_log (pci_cap_iter_init wires s.pci_dev) s)
    caps_loop fuel first

  unfoldable pub negotiate_virtio_features : Action Setup ⊤
  negotiate_virtio_features = do
    let requested = virtio_blk_requested_features
    set_reg 32 device_feature_select 0
    low ← get_reg wires 32 device_feature
    set_reg 32 device_feature_select 1
    high ← get_reg wires 32 device_feature
    let available = bits_or 64 low (high * 2 ^ 32)
    check (bits_and 64 requested available == requested)
    set_reg 32 driver_feature_select 0
    set_reg 32 driver_feature (requested % 2 ^ 32)
    set_reg 32 driver_feature_select 1
    set_reg 32 driver_feature (requested / 2 ^ 32)
    modify (add_status virtio_status_features_ok)
    store_status
    status ← get_reg wires 8 device_status
    check (status / 8 % 2 == 1)
    modify (λ s. record s { features = requested })

  module _ (g : CoreHeader) where
    -- The loop that restores the BARs.
    unfoldable pub bars_loop : ℕ → ℕ → Action Setup ⊤
    bars_loop zero i = pure tt
    bars_loop (suc k) i = do
      (λ s. on_log (pci_write wires 32 s.pci_dev.addr (pci_base_address_0 + 4 * i) (g.bars i)) s)
      bars_loop k (suc i)

    module _ (fuel : ℕ) where
      -- Everything up to the configuration that the device needs before it can be talked to.
      unfoldable pub find_device : Action Setup ⊤
      find_device = do
        dev ← on_log (init_pci_dev wires g.addr)
        modify (λ s. record s { pci_dev = dev })
        check (dev.vendor_id == virtio_blk_vendor_id && dev.device_id == virtio_blk_device_id)
        bars_loop pci_base_address_num 0
        check (dev.header_type == 0)
        parse_virtio_blk_caps fuel
        s ← gets (λ s. s)
        check (not (s.common_cfg == 0) && not (s.notify_off == 0))
        command ← cap_read 16 pci_command
        (λ s. on_log (pci_write wires 16 s.pci_dev.addr pci_command (bits_or 16 command 2)) s)

  module _ (buffer : ℕ → ℕ) where
    -- The conversation with the device.
    unfoldable pub start_device : Action Setup ⊤
    start_device = do
      init_virtio_status
      negotiate_virtio_features
      on_queue (λ q. record q { num = 0 })
      init_virtio_blk_queue wires buffer
      modify (add_status virtio_status_driver_ok)
      store_status

    unfoldable pub init_virtio_blk_dev : CoreHeader → ℕ → Action Setup ⊤
    init_virtio_blk_dev g fuel = on_invalid report_failure (find_device g fuel >> start_device)
