-- ===== src/Core/Virtio/Device/Tests.antt =====
-- A device in configuration space on which the theorems about the initialisation are applied.
use switch_os.Base.{ℕ, ◌+◌, ◌-◌, ◌≡◌, refl, ◌==◌, if◌then◌else◌, [], ◌∷◌, arith}
use switch_os.Base.Action.{ok}
use switch_os.Base.Bits.{bits_or}
use switch_os.Base.Bytes.{store, byte_of}
use switch_os.Base.Io.{Wires, Log, to_port, to_memory}
use switch_os.Core.Header.{CoreHeader}
use switch_os.Core.Alloc.{
  Heap, core_calloc, core_malloc, malloc_from, find_allocator_for_size, size_loop,
}
use switch_os.Core.Alloc.Example.{buffer}
use switch_os.Core.Virtio.Init.{Setup, init_virtio_blk_queue}
use switch_os.Core.Virtio.Init.Linked.{Fresh}
use switch_os.Core.Virtio.Init.Started.{init_virtio_blk_queue-Fresh}
use switch_os.Core.Virtio.Device.{
  find_device, bars_loop, parse_virtio_blk_caps, caps_loop, parse_cap, use_common_cfg,
  use_notify_cfg, init_virtio_blk_dev,
}
use switch_os.Core.Virtio.Device.Statuses.{statuses}
use switch_os.Core.Virtio.Device.Handshake.{Reported, init_virtio_blk_dev-Reported}
use switch_os.Pci.{
  PciDevAddr, conf_addr, pci_read, pci_write, init_pci_dev, pci_get_bar, upper_bar, is_cap_valid,
  pci_cap_iter_init, pci_cap_iter_next,
}

-- Function 0 of device 3 on bus 0. The capability at 0x40 is the common configuration, the one
-- at 0x50 the notification; both lie in the 64-bit BAR 4 at 0x8fe000000.
abbrev config_bytes : ℕ → ℕ
config_bytes r =
    if r == 0
    then 0x1af4
    else if r == 2
    then 0x1001
    else if r == 6
    then 0x10
    else if r == 0x20
    then 0xfe00000c
    else if r == 0x24
    then 8
    else if r == 0x34
    then 0x40
    else if r == 0x40
    then 9
    else if r == 0x41
    then 0x50
    else if r == 0x43
    then 1
    else if r == 0x44
    then 4
    else if r == 0x50
    then 9
    else if r == 0x53
    then 2
    else if r == 0x54
    then 4
    else if r == 0x58
    then 0x3000
    else if r == 0x60
    then 4
    else 0

abbrev read_data : Log → ℕ
read_data [] = 0
read_data (to_port w p v ∷ log) = config_bytes (v - 0x80001800)
read_data (to_memory w a v ∷ log) = 0

-- The queue has four descriptors, and the status that is read back is 11.
abbrev registers : ℕ → ℕ
registers r = if r == 24 then 4 else if r == 20 then 11 else 0

abbrev wires : Wires
wires = record {
  from_port = λ width port log. read_data log;
  from_memory = λ width addr log. registers (addr - 0x8fe000000);
}

-- A block in list 0, and two in list 1.
abbrev heap : Heap
heap = record {
  mem = store 8 (λ x. 0) (buffer 1) (buffer 1 + 64);
  head = λ i. if i == 0 then buffer 0 else if i == 1 then buffer 1 else 0;
}

abbrev place : PciDevAddr
place = record { bus = 0; device = 3; function = 0 }

abbrev setup : Setup
setup = record {
  log = [];
  heap = heap;
  pci_dev = record { addr = place; vendor_id = 0; device_id = 0; header_type = 0 };
  common_cfg = 0x8fe000000;
  queue = record {
    num = 0;
    size = 0;
    seen_used = 0;
    notify_off = 0;
    free_head = 0;
    desc = λ j. record { addr = 0; len = 0; flags = 0; next = 0 };
    avail_idx = 0;
    avail_ring = λ j. 0;
    used_idx = 0;
    used_ring = λ j. record { id = 0; len = 0 };
  };
  desc_ptr = 0;
  avail_ptr = 0;
  used_ptr = 0;
  avail_flags = 0;
  notify_off = 0x8fe003000;
  multiplier = 4;
  status = 0;
  features = 0;
}

abbrev heap1 : Heap
heap1 = (core_calloc 16 4 heap).1

abbrev heap2 : Heap
heap2 = (core_calloc 12 1 heap1).1

abbrev heap3 : Heap
heap3 = (core_calloc 36 1 heap2).1

desc_alloc : core_calloc 16 4 heap ≡ (buffer 1, heap1)
unfolding core_calloc core_malloc malloc_from find_allocator_for_size size_loop
desc_alloc = refl

avail_alloc : core_calloc 12 1 heap1 ≡ (buffer 0, heap2)
unfolding core_calloc core_malloc malloc_from find_allocator_for_size size_loop
avail_alloc = refl

used_alloc : core_calloc 36 1 heap2 ≡ (buffer 1 + 64, heap3)
unfolding core_calloc core_malloc malloc_from find_allocator_for_size size_loop store byte_of
used_alloc = refl

init_virtio_blk_queue-Fresh_example :
    (t : Setup) × (init_virtio_blk_queue wires buffer setup ≡ (ok tt, t)) × Fresh 4 t.queue
init_virtio_blk_queue-Fresh_example =
    init_virtio_blk_queue-Fresh wires buffer setup 4 (buffer 1) (buffer 0) (buffer 1 + 64) heap1
      heap2 heap3 refl (omega arith) (omega arith) (λ e. omega (arith, e)) desc_alloc
      (λ e. omega (arith, e)) avail_alloc (λ e. omega (arith, e)) used_alloc (λ e. omega (arith, e))

abbrev core : CoreHeader
core = record {
  magic = 0x12345678;
  action = 1;
  facs = 0x7fe000;
  rsdp = 0x7fe014;
  addr = place;
  bars = λ i. if i == 4 then 0xfe00000c else if i == 5 then 8 else 0;
  ram_areas_size = 0;
  ram_areas = λ i. record { start = 0; size = 0 };
}

abbrev device_found : Setup
device_found = (find_device wires core 4 setup).1

finds : find_device wires core 4 setup ≡ (ok tt, device_found)
unfolding find_device bars_loop parse_virtio_blk_caps caps_loop parse_cap use_common_cfg
    use_notify_cfg conf_addr pci_read pci_write init_pci_dev pci_get_bar upper_bar is_cap_valid
    pci_cap_iter_init pci_cap_iter_next bits_or
finds = refl

found_cfg : device_found.common_cfg ≡ 0x8fe000000
unfolding find_device bars_loop parse_virtio_blk_caps caps_loop parse_cap use_common_cfg
    use_notify_cfg conf_addr pci_read pci_write init_pci_dev pci_get_bar upper_bar is_cap_valid
    pci_cap_iter_init pci_cap_iter_next bits_or
found_cfg = refl

init_virtio_blk_dev-Reported_example :
    Reported wires buffer device_found.common_cfg
      (statuses device_found.common_cfg device_found.log)
      (init_virtio_blk_dev wires buffer core 4 setup)
init_virtio_blk_dev-Reported_example =
    init_virtio_blk_dev-Reported wires buffer core 4 setup device_found finds
      (λ e. omega (arith, e, found_cfg))
