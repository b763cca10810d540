-- ===== src/Pci.antt =====
-- shared/src/pci/pci.c and pci_utils.c: the configuration space, looking up a device, its base
-- address registers and its capabilities.
pub mod Search
pub mod Lookup
pub mod Bars
mod Tests
use switch_os.Base.{
  ℕ, zero, suc, ◌+◌, ◌*◌, ◌/◌, ◌%◌, ◌^◌, Bool, true, false, not, ltb, ◌==◌, ◌&&◌, ◌||◌, Option,
  none, some, if◌then◌else◌,
}
use switch_os.Base.Action.{
  ⊤, Action, Result, ok, invalid, fault, hang, pure, fail, check, ◌>>=◌, ◌>>◌,
}
use switch_os.Base.Bits.{bits_or}
use switch_os.Base.Io.{Wires, Log, in_port, out_port}

-- `struct pci_dev_addr`
pub record PciDevAddr : Type 0 where
  pub bus : ℕ
  pub device : ℕ
  pub function : ℕ

-- `struct pci_dev`
pub record PciDev : Type 0 where
  pub addr : PciDevAddr
  pub vendor_id : ℕ
  pub device_id : ℕ
  pub header_type : ℕ

-- `struct pci_dev_id`
pub record PciDevId : Type 0 where
  pub vendor_id : ℕ
  pub device_id : ℕ

pub data PciBarType : Type 0 where
  pci_bar_io pci_bar_memory : PciBarType

-- `struct pci_bar`
pub record PciBar : Type 0 where
  pub addr : ℕ
  pub type : PciBarType

abbrev pub pci_max_bus : ℕ
pci_max_bus = 256

abbrev pub pci_max_device : ℕ
pci_max_device = 32

abbrev pub pci_max_function : ℕ
pci_max_function = 8

abbrev pub pci_vendor_id : ℕ
pci_vendor_id = 0

abbrev pub pci_device_id : ℕ
pci_device_id = 2

abbrev pub pci_command : ℕ
pci_command = 4

abbrev pub pci_status : ℕ
pci_status = 6

abbrev pub pci_header_type : ℕ
pci_header_type = 0xe

abbrev pub pci_base_address_0 : ℕ
pci_base_address_0 = 0x10

abbrev pub pci_capability_list : ℕ
pci_capability_list = 0x34

abbrev pub pci_vendor_id_invalid : ℕ
pci_vendor_id_invalid = 0xffff

abbrev pub pci_base_address_num : ℕ
pci_base_address_num = 6

abbrev pub pci_base_address_invalid : ℕ
pci_base_address_invalid = 0xffffffff

-- `PCI_CONF_ADDR`
unfoldable pub conf_addr : PciDevAddr → ℕ → ℕ
conf_addr a offset =
    bits_or 32
      (bits_or 32 (bits_or 32 (bits_or 32 0x80000000 (a.bus * 2 ^ 16)) (a.device * 2 ^ 11))
        (a.function * 2 ^ 8))
      offset

-- `goto cleanup` with what was found.
abbrev pub found : {A : Type 0} → Result A × Log → Result (Option A) × Log
found (ok a, log) = (ok (some a), log)
found (invalid, log) = (invalid, log)
found (fault, log) = (fault, log)
found (hang, log) = (hang, log)

abbrev pub unless_found : {A : Type 0} → Action Log (Option A) → Option A → Action Log (Option A)
unless_found rest (some a) = pure (some a)
unless_found rest none = rest

module _ (wires : Wires) where
  -- `pci_read_8`, `pci_read_16` and `pci_read_32`
  unfoldable pub pci_read : ℕ → PciDevAddr → ℕ → Action Log ℕ
  pci_read width addr offset =
      out_port 32 0xcf8 (conf_addr addr offset) >> in_port wires width 0xcfc

  -- `pci_write_8`, `pci_write_16` and `pci_write_32`
  unfoldable pub pci_write : ℕ → PciDevAddr → ℕ → ℕ → Action Log ⊤
  pci_write width addr offset value =
      out_port 32 0xcf8 (conf_addr addr offset) >> out_port width 0xcfc value

  unfoldable pub init_pci_dev : PciDevAddr → Action Log PciDev
  init_pci_dev addr = do
    vendor_id ← pci_read 16 addr pci_vendor_id
    device_id ← pci_read 16 addr pci_device_id
    header ← pci_read 8 addr pci_header_type
    let header_type = header % 2 ^ 7
    check (header_type == 0 || header_type == 1 || header_type == 2)
    pure (record {
      addr = addr;
      vendor_id = vendor_id;
      device_id = device_id;
      header_type = header_type;
    })

  module _ (lookup_id : PciDevId) where
    -- The loop over the functions of a device, `k` of them from `function` on.
    unfoldable pub function_loop : ℕ → ℕ → ℕ → ℕ → Action Log (Option PciDev)
    function_loop bus device zero function = pure none
    function_loop bus device (suc k) function = do
      let addr : PciDevAddr = record { bus = bus; device = device; function = function }
      let rest = function_loop bus device k (suc function)
      vendor_id ← pci_read 16 addr pci_vendor_id
      if vendor_id == pci_vendor_id_invalid then pure none else (do
        device_id ← pci_read 16 addr pci_device_id
        if lookup_id.vendor_id == vendor_id && lookup_id.device_id == device_id
            then (λ log. found (init_pci_dev addr log))
            else rest)

    unfoldable pub device_loop : ℕ → ℕ → ℕ → Action Log (Option PciDev)
    device_loop bus zero device = pure none
    device_loop bus (suc k) device =
        let rest = device_loop bus k (suc device) in
        function_loop bus device pci_max_function 0 >>= unless_found rest

    unfoldable pub bus_loop : ℕ → ℕ → Action Log (Option PciDev)
    bus_loop zero bus = pure none
    bus_loop (suc k) bus =
        let rest = bus_loop k (suc bus) in device_loop bus pci_max_device 0 >>= unless_found rest

    abbrev pub or_fail : Option PciDev → Action Log PciDev
    or_fail (some dev) = pure dev
    or_fail none = fail invalid

    unfoldable pub lookup_pci_dev : Action Log PciDev
    lookup_pci_dev = bus_loop pci_max_bus 0 >>= or_fail

  -- The upper half of a 64-bit memory BAR.
  unfoldable pub upper_bar : PciDev → ℕ → ℕ → PciBar → Action Log PciBar
  upper_bar pci_dev bar_num bar low =
      if bar / 2 % 4 == 2
      then (do
        check (ltb (bar_num + 1) pci_base_address_num)
        bar_next ← pci_read 32 pci_dev.addr (pci_base_address_0 + (bar_num + 1) * 4)
        pure (record low { addr = (low.addr + bar_next * 2 ^ 32) % 2 ^ 64 }))
      else pure low

  unfoldable pub pci_get_bar : PciDev → ℕ → Action Log PciBar
  pci_get_bar pci_dev bar_num = do
    check (ltb bar_num pci_base_address_num)
    bar ← pci_read 32 pci_dev.addr (pci_base_address_0 + bar_num * 4)
    check (not (bar == pci_base_address_invalid))
    if bar % 2 == 1
        then pure (record { addr = bar / 4 * 4; type = pci_bar_io })
        else upper_bar pci_dev bar_num bar (record { addr = bar / 16 * 16; type = pci_bar_memory })

  unfoldable pub is_cap_valid : PciDev → ℕ → Action Log Bool
  is_cap_valid pci_dev cap_off =
      if ltb cap_off 0x40
      then pure false
      else (do cap_id ← pci_read 8 pci_dev.addr cap_off; pure (not (cap_id == 0xff)))

  -- The offset of the first capability and of the one after `off`; 0 when there is none.
  unfoldable pub pci_cap_iter_init : PciDev → Action Log ℕ
  pci_cap_iter_init pci_dev = do
    first_cap_off ← pci_read 8 pci_dev.addr pci_capability_list
    valid ← is_cap_valid pci_dev first_cap_off
    pure (if valid then first_cap_off else 0)

  unfoldable pub pci_cap_iter_next : PciDev → ℕ → Action Log ℕ
  pci_cap_iter_next pci_dev off = do
    next_cap_off ← pci_read 8 pci_dev.addr (off + 1)
    valid ← is_cap_valid pci_dev next_cap_off
    pure (if valid then next_cap_off else 0)
