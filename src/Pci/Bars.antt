-- ===== src/Pci/Bars.antt =====
-- The addresses of the configuration space, and the decoding of base address registers by
-- `pci_get_bar` (shared/src/pci/pci.c).
use switch_os.Base.{
  ℕ, ◌+◌, ◌*◌, ◌/◌, ◌%◌, ◌^◌, ◌<◌, ◌≡◌, refl, sym, ◌∙◌, true, false, ltb, ◌==◌, arith,
}
use switch_os.Base.Action.{ok}
use switch_os.Base.Bits.{bits_or, bits_or-add}
use switch_os.Base.Io.{Wires, Log}
use switch_os.Pci.{
  PciDevAddr, PciDev, PciBar, pci_bar_io, pci_bar_memory, pci_base_address_0, pci_base_address_num,
  pci_base_address_invalid, conf_addr, upper_bar, pci_get_bar,
}
use switch_os.Pci.Lookup.{Config, Shows, config_at, selected, pci_read_runs}

-- A place in the configuration space.
pub record InSpace (a : PciDevAddr) (offset : ℕ) : Type 0 where
  pub bus_low : a.bus < 256
  pub device_low : a.device < 32
  pub function_low : a.function < 8
  pub offset_low : offset < 256

or_at : (n c a b : ℕ) → a ≡ 2 ^ n * c → a < 2 ^ 32 → b < 2 ^ n → b < 2 ^ 32 → bits_or 32 a b ≡ a + b
or_at n c a b e p r s = rw e (bits_or-add 32 n c b (rw e at p) r s)

-- The fields do not overlap.
conf_addr-add :
    (bus device function offset : ℕ)
    → bus < 256
    → device < 32
    → function < 8
    → offset < 256
    → conf_addr (record { bus = bus; device = device; function = function }) offset
      ≡ 0x80000000 + bus * 2 ^ 16 + device * 2 ^ 11 + function * 2 ^ 8 + offset
unfolding conf_addr
conf_addr-add bus device function offset p q r s =
    let a₁ = 0x80000000 + bus * 2 ^ 16 in
    let a₂ = a₁ + device * 2 ^ 11 in
    let a₃ = a₂ + function * 2 ^ 8 in
    rw
      (
        or_at 31 1 0x80000000 (bus * 2 ^ 16) refl (omega arith) (omega arith) (omega arith),
        or_at 16 (2 ^ 15 + bus) a₁ (device * 2 ^ 11) (omega arith) (omega arith) (omega arith)
            (omega arith),
        or_at 11 (2 ^ 20 + bus * 2 ^ 5 + device) a₂ (function * 2 ^ 8) (omega arith) (omega arith)
            (omega arith) (omega arith),
        or_at 8 (2 ^ 23 + bus * 2 ^ 8 + device * 2 ^ 3 + function) a₃ offset (omega arith)
            (omega arith) (omega arith) (omega arith),
      )
      refl

-- Two places of the configuration space have the same address only when they are the same, and the
-- address fits the 32 bits of the address port.
pub conf_addr-InSpace :
    (a b : PciDevAddr) (i j : ℕ)
    → InSpace a i
    → InSpace b j
    → conf_addr a i ≡ conf_addr b j
    → (conf_addr a i < 2 ^ 32) × (a ≡ b) × (i ≡ j)
conf_addr-InSpace a b i j p q e =
    let x =
      conf_addr-add a.bus a.device a.function i p.bus_low p.device_low p.function_low
        p.offset_low in
    let y =
      conf_addr-add b.bus b.device b.function j q.bus_low q.device_low q.function_low
        q.offset_low in
    let same = sym x ∙ e ∙ y in
    let bus : a.bus ≡ b.bus = omega (
      arith, same, p.device_low, p.function_low, p.offset_low, q.device_low, q.function_low,
      q.offset_low,
    ) in
    let device : a.device ≡ b.device =
      omega (arith, same, bus, p.function_low, p.offset_low, q.function_low, q.offset_low) in
    let function : a.function ≡ b.function =
      omega (arith, same, bus, device, p.offset_low, q.offset_low) in
    (
      omega (arith, x, p.bus_low, p.device_low, p.function_low, p.offset_low),
      same_addr bus device function,
      omega (arith, same, bus, device, function),
    )
  where
    same_addr : a.bus ≡ b.bus → a.device ≡ b.device → a.function ≡ b.function → a ≡ b
    same_addr e f g i = record { bus = e i; device = f i; function = g i }

-- What a base address register describes: ports, or memory below 4 GiB or anywhere, which may be
-- prefetchable (1) or not (0).
pub data Base : Type 0 where
  ports : ℕ → Base
  memory32 : ℕ → ℕ → Base
  memory64 : ℕ → ℕ → Base

-- The register (PCI 3.0, section 6.2.5.1).
abbrev pub low_register : Base → ℕ
low_register (ports p) = p + 1
low_register (memory32 a f) = a + 8 * f
low_register (memory64 a f) = a % 2 ^ 32 + 4 + 8 * f

-- Numbers that the registers can hold, in a place where they all are.
abbrev pub IsBase : Base → ℕ → Type 0
IsBase (ports p) n = (p % 4 ≡ 0) × (p < 2 ^ 32) × (n < 6)
IsBase (memory32 a f) n = (a % 16 ≡ 0) × (a < 2 ^ 32) × (f < 2) × (n < 6)
IsBase (memory64 a f) n = (a % 16 ≡ 0) × (a < 2 ^ 64) × (f < 2) × (n < 5)

-- Register `n` and, for 64 bits, the one behind it hold the description.
abbrev pub Holds : Config → PciDevAddr → Base → ℕ → Type 0
Holds config addr (memory64 a f) n =
    (config_at config 32 addr (pci_base_address_0 + n * 4) ≡ low_register (memory64 a f))
    × (config_at config 32 addr (pci_base_address_0 + (n + 1) * 4) ≡ a / 2 ^ 32)
Holds config addr (ports p) n =
    config_at config 32 addr (pci_base_address_0 + n * 4) ≡ low_register (ports p)
Holds config addr (memory32 a f) n =
    config_at config 32 addr (pci_base_address_0 + n * 4) ≡ low_register (memory32 a f)

abbrev pub bar_of : Base → PciBar
bar_of (ports p) = record { addr = p; type = pci_bar_io }
bar_of (memory32 a f) = record { addr = a; type = pci_bar_memory }
bar_of (memory64 a f) = record { addr = a; type = pci_bar_memory }

module _ (wires : Wires) (config : Config) (shows : Shows wires config) (dev : PciDev) (n : ℕ)
    (log : Log) where
  module _ (bar p : ℕ) (low : ltb n pci_base_address_num ≡ true)
      (reads : config_at config 32 dev.addr (pci_base_address_0 + n * 4) ≡ bar)
      (valid : (bar == pci_base_address_invalid) ≡ false) where
    ports_run :
        (bar % 2 == 1) ≡ true
        → bar / 4 * 4 ≡ p
        → pci_get_bar wires dev n log ≡ (
          ok (record { addr = p; type = pci_bar_io }),
          selected dev.addr (pci_base_address_0 + n * 4) log,
        )
    unfolding pci_get_bar
    ports_run e f =
        rw
          (
            low,
            pci_read_runs wires config shows 32 dev.addr (pci_base_address_0 + n * 4) log,
            reads,
            valid,
            e,
            f,
          )
          refl

    memory32_runs :
        (bar % 2 == 1) ≡ false
        → (bar / 2 % 4 == 2) ≡ false
        → bar / 16 * 16 ≡ p
        → pci_get_bar wires dev n log ≡ (
          ok (record { addr = p; type = pci_bar_memory }),
          selected dev.addr (pci_base_address_0 + n * 4) log,
        )
    unfolding pci_get_bar upper_bar
    memory32_runs e g f =
        rw
          (
            low,
            pci_read_runs wires config shows 32 dev.addr (pci_base_address_0 + n * 4) log,
            reads,
            valid,
            e,
            g,
            f,
          )
          refl

    memory64_runs :
        (next : ℕ)
        → (bar % 2 == 1) ≡ false
        → (bar / 2 % 4 == 2) ≡ true
        → ltb (n + 1) pci_base_address_num ≡ true
        → config_at config 32 dev.addr (pci_base_address_0 + (n + 1) * 4) ≡ next
        → (bar / 16 * 16 + next * 2 ^ 32) % 2 ^ 64 ≡ p
        → pci_get_bar wires dev n log ≡ (
          ok (record { addr = p; type = pci_bar_memory }),
          selected dev.addr
              (pci_base_address_0 + (n + 1) * 4)
              (selected dev.addr (pci_base_address_0 + n * 4) log),
        )
    unfolding pci_get_bar upper_bar
    memory64_runs next e g k r f =
        rw
          (
            low,
            pci_read_runs wires config shows 32 dev.addr (pci_base_address_0 + n * 4) log,
            reads,
            valid,
            e,
            g,
            k,
            pci_read_runs wires config shows 32 dev.addr (pci_base_address_0 + (n + 1) * 4)
                (selected dev.addr (pci_base_address_0 + n * 4) log),
            r,
            f,
          )
          refl

  -- `pci_get_bar` of a register that describes ports or memory, with the upper half of a 64-bit
  -- address in the next register, returns that kind of bar and that address.
  pub pci_get_bar-bar_of :
      (base : Base)
      → IsBase base n
      → Holds config dev.addr base n
      → (log' : Log) × (pci_get_bar wires dev n log ≡ (ok (bar_of base), log'))
  pci_get_bar-bar_of (ports p) (aligned, fits, low) holds =
      (_, ports_run (p + 1) p (ground arith) holds (ground arith) (ground arith) (omega arith))
  pci_get_bar-bar_of (memory32 a f) (aligned, fits, flag, low) holds = (
    _,
    memory32_runs (a + 8 * f) a (ground arith) holds (ground arith) (ground arith) (ground arith)
        (omega arith),
  )
  pci_get_bar-bar_of (memory64 a f) (aligned, fits, flag, low) (holds, above) = (
    _,
    memory64_runs (a % 2 ^ 32 + 4 + 8 * f) a (ground arith) holds (ground arith) (a / 2 ^ 32)
        (ground arith) (ground arith) (ground arith) above (omega arith),
  )
