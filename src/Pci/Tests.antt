-- ===== src/Pci/Tests.antt =====
-- A configuration space on which the theorems about shared/src/pci/pci.c are applied.
use switch_os.Base.{ℕ, ◌-◌, ◌^◌, ◌≤◌, ◌<◌, ◌≡◌, refl, ◌⊎◌, ◌==◌, if◌then◌else◌, [], ◌∷◌, arith}
use switch_os.Base.Action.{ok, invalid}
use switch_os.Base.Bits.{bits_or}
use switch_os.Base.Io.{Wires, Log, to_port, to_memory}
use switch_os.Pci.{
  PciDevAddr, PciDev, PciDevId, conf_addr, lookup_pci_dev, pci_get_bar, pci_max_bus,
}
use switch_os.Pci.Lookup.{Config, Shows, config_at, NoBus, BusHit, lookup_pci_dev-First}
use switch_os.Pci.Bars.{InSpace, memory64, bar_of, pci_get_bar-bar_of}

-- One device, function 0 of device 3 on bus 0, with a 64-bit BAR at 0x8fe000000.
abbrev config : Config
config width a =
    if a == 0x80001800
    then 0x1af4
    else if a == 0x80001802
    then 0x1001
    else if a == 0x8000180e
    then 0
    else if a == 0x80001820
    then 0xfe00000c
    else if a == 0x80001824
    then 8
    else 2 ^ width - 1

abbrev read_data : ℕ → Log → ℕ
read_data width [] = 0
read_data width (to_port w p v ∷ log) = if p == 0xcf8 then config width v else 0
read_data width (to_memory w a v ∷ log) = 0

abbrev wires : Wires
wires = record {
  from_port = λ width port log. read_data width log;
  from_memory = λ width addr log. 0;
}

wires_show : Shows wires config
wires_show width a log = refl

abbrev wanted : PciDevId
wanted = record { vendor_id = 0x1af4; device_id = 0x1001 }

lookup_pci_dev-First_example :
    ((log' : Log) × (lookup_pci_dev wires wanted [] ≡ (invalid, log'))
      × ((bus : ℕ) → 0 ≤ bus → bus < pci_max_bus → NoBus wires config wires_show wanted bus))
    ⊎ ((bus : ℕ) × (bus < pci_max_bus)
        × ((l : ℕ) → 0 ≤ l → l < bus → NoBus wires config wires_show wanted l)
        × BusHit wires config wires_show wanted bus (lookup_pci_dev wires wanted []))
lookup_pci_dev-First_example = lookup_pci_dev-First wires config wires_show wanted []

abbrev place : PciDevAddr
place = record { bus = 0; device = 3; function = 0 }

abbrev register : ℕ
register = 0x20

place-InSpace : InSpace place register
place-InSpace = record {
  bus_low = omega arith;
  device_low = omega arith;
  function_low = omega arith;
  offset_low = omega arith;
}

abbrev disk : PciDev
disk = record { addr = place; vendor_id = 0x1af4; device_id = 0x1001; header_type = 0 }

disk_low : config_at config 32 place 0x20 ≡ 0xfe00000c
unfolding conf_addr bits_or
disk_low = refl

disk_above : config_at config 32 place 0x24 ≡ 8
unfolding conf_addr bits_or
disk_above = refl

pci_get_bar-bar_of_example :
    (log' : Log) × (pci_get_bar wires disk 4 [] ≡ (ok (bar_of (memory64 0x8fe000000 1)), log'))
pci_get_bar-bar_of_example =
    pci_get_bar-bar_of wires config wires_show disk 4 [] (memory64 0x8fe000000 1)
      (refl, omega arith, omega arith, omega arith) (disk_low, disk_above)
