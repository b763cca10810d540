-- ===== src/Pci/Lookup.antt =====
-- `lookup_pci_dev` (shared/src/pci/pci.c) finds the first device that its loops reach.
use switch_os.Base.{
  ℕ, zero, suc, ◌+◌, ◌%◌, ◌^◌, ◌≤◌, ◌<◌, ◌≡◌, ◌≢◌, refl, sym, ◌∙◌, ◌⊎◌, inl, inr, Bool, true, false,
  ◌==◌, ◌&&◌, Bool-cases, none, ◌∷◌, arith,
}
use switch_os.Base.Action.{Result, ok, invalid, fault, hang}
use switch_os.Base.Io.{Wires, Log, to_port}
use switch_os.Pci.{
  PciDevAddr, PciDev, PciDevId, pci_vendor_id, pci_device_id, pci_vendor_id_invalid, conf_addr,
  pci_read, init_pci_dev, found, function_loop, device_loop, bus_loop, lookup_pci_dev, pci_max_bus,
  pci_max_device, pci_max_function,
}
use switch_os.Pci.Search.{Searched, first_or_later, loop-Searched}

abbrev pub Config : Type 0
Config = ℕ → ℕ → ℕ

-- The data port shows the word of configuration space that the address port selects.
abbrev pub Shows : Wires → Config → Type 0
Shows wires config =
    (width a : ℕ) (log : Log)
    → wires.from_port width 0xcfc (to_port 32 0xcf8 a ∷ log) ≡ config width a

abbrev pub config_at : Config → ℕ → PciDevAddr → ℕ → ℕ
config_at config width addr offset = config width (conf_addr addr offset % 2 ^ 32) % 2 ^ width

abbrev pub selected : PciDevAddr → ℕ → Log → Log
selected addr offset log = to_port 32 0xcf8 (conf_addr addr offset % 2 ^ 32) ∷ log

module _ (wires : Wires) (config : Config) (shows : Shows wires config) where
  pub pci_read_runs :
      (width : ℕ) (addr : PciDevAddr) (offset : ℕ) (log : Log)
      → pci_read wires width addr offset log
        ≡ (ok (config_at config width addr offset), selected addr offset log)
  unfolding pci_read
  pci_read_runs width addr offset log = rw (shows width (conf_addr addr offset % 2 ^ 32) log) refl

  module _ (id : PciDevId) where
    abbrev at : ℕ → ℕ → ℕ → PciDevAddr
    at bus device function = record { bus = bus; device = device; function = function }

    abbrev vendor : ℕ → ℕ → ℕ → ℕ
    vendor bus device function = config_at config 16 (at bus device function) pci_vendor_id

    -- A function with the ids, before which no function of the device is absent.
    pub record Candidate (bus device function : ℕ) : Type 0 where
      pub vendor_eq : vendor bus device function ≡ id.vendor_id
      pub device_eq : config_at config 16 (at bus device function) pci_device_id ≡ id.device_id
      pub present : (g : ℕ) → g ≤ function → vendor bus device g ≢ pci_vendor_id_invalid

    abbrev pub NoFunction : ℕ → ℕ → ℕ → Type 0
    NoFunction bus device function = ¬ Candidate bus device function

    abbrev pub NoDevice : ℕ → ℕ → Type 0
    NoDevice bus device =
        (function : ℕ) → 0 ≤ function → function < pci_max_function → NoFunction bus device function

    abbrev pub NoBus : ℕ → Type 0
    NoBus bus = (device : ℕ) → 0 ≤ device → device < pci_max_device → NoDevice bus device

    -- The result is that of `init_pci_dev` at the function.
    abbrev pub FunctionHit : ℕ → ℕ → ℕ → Result PciDev × Log → Type 0
    FunctionHit bus device function x =
        Candidate bus device function
        × (log : Log) × (x ≡ init_pci_dev wires (at bus device function) log)

    -- At the first such function of the device, and at the first such device of the bus.
    abbrev pub DeviceHit : ℕ → ℕ → Result PciDev × Log → Type 0
    DeviceHit bus device x =
        (function : ℕ) × (function < pci_max_function)
        × ((l : ℕ) → 0 ≤ l → l < function → NoFunction bus device l)
        × FunctionHit bus device function x

    abbrev pub BusHit : ℕ → Result PciDev × Log → Type 0
    BusHit bus x =
        (device : ℕ) × (device < pci_max_device)
        × ((l : ℕ) → 0 ≤ l → l < device → NoDevice bus l)
        × DeviceHit bus device x

    absent_runs :
        (bus device k function : ℕ) (log : Log)
        → (vendor bus device function == pci_vendor_id_invalid) ≡ true
        → function_loop wires id bus device (suc k) function log
          ≡ (ok none, selected (at bus device function) pci_vendor_id log)
    unfolding function_loop
    absent_runs bus device k function log e =
        rw (pci_read_runs 16 (at bus device function) pci_vendor_id log, e) refl

    abbrev looked : ℕ → ℕ → ℕ → Log → Log
    looked bus device function log =
        selected (at bus device function) pci_device_id
          (selected (at bus device function) pci_vendor_id log)

    abbrev matches : ℕ → ℕ → ℕ → Bool
    matches bus device function =
        (id.vendor_id == vendor bus device function)
        && (id.device_id == config_at config 16 (at bus device function) pci_device_id)

    hit_runs :
        (bus device k function : ℕ) (log : Log)
        → (vendor bus device function == pci_vendor_id_invalid) ≡ false
        → matches bus device function ≡ true
        → function_loop wires id bus device (suc k) function log
          ≡ found (init_pci_dev wires (at bus device function) (looked bus device function log))
    unfolding function_loop
    hit_runs bus device k function log e f =
        rw
          (
            pci_read_runs 16 (at bus device function) pci_vendor_id log,
            e,
            pci_read_runs 16 (at bus device function) pci_device_id
                (selected (at bus device function) pci_vendor_id log),
            f,
          )
          refl

    miss_runs :
        (bus device k function : ℕ) (log : Log)
        → (vendor bus device function == pci_vendor_id_invalid) ≡ false
        → matches bus device function ≡ false
        → function_loop wires id bus device (suc k) function log
          ≡ function_loop wires id bus device k (suc function) (looked bus device function log)
    unfolding function_loop
    miss_runs bus device k function log e f =
        rw
          (
            pci_read_runs 16 (at bus device function) pci_vendor_id log,
            e,
            pci_read_runs 16 (at bus device function) pci_device_id
                (selected (at bus device function) pci_vendor_id log),
            f,
          )
          refl

    and_split : (a b : Bool) → (a && b) ≡ true → (a ≡ true) × (b ≡ true)
    and_split true b e = (refl, e)
    and_split false b e = absurd (ground (arith, e))

    and_both : (a b : Bool) → a ≡ true → b ≡ true → (a && b) ≡ true
    and_both a b e f = rw (e, f) refl

    function_loop-Searched :
        (bus device k function : ℕ) (log : Log)
        → function + k ≡ pci_max_function
        → ((g : ℕ) → suc g ≤ function → vendor bus device g ≢ pci_vendor_id_invalid)
        → Searched
            (NoFunction bus device)
            (FunctionHit bus device)
            function
            pci_max_function
            (function_loop wires id bus device k function log)
    unfolding function_loop
    function_loop-Searched bus device zero function log e before =
        inl (log, refl, λ j p q. absurd (omega arith))
    function_loop-Searched bus device (suc k) function log e before =
        elim (Bool-cases (vendor bus device function == pci_vendor_id_invalid)) [
          | inl absent ↦ inl (
            _,
            absent_runs bus device k function log absent,
            λ j p q c. c.present function p (ground (arith, absent)),
          )
          | inr there ↦
              let v : vendor bus device function ≢ pci_vendor_id_invalid =
                λ same. ground (arith, there, same) in
              elim (Bool-cases (matches bus device function)) [
                | inl hit ↦
                    let same_vendor = id.vendor_id == vendor bus device function in
                    let same_device =
                      id.device_id == config_at config 16 (at bus device function) pci_device_id in
                    let (a, b) = and_split same_vendor same_device hit in
                    inr (
                      function,
                      init_pci_dev wires (at bus device function) (looked bus device function log),
                      omega arith,
                      omega arith,
                      (λ l p q. absurd (omega arith)),
                      hit_runs bus device k function log there hit,
                      (
                        record {
                          vendor_eq = ground (arith, a);
                          device_eq = ground (arith, b);
                          present = upto bus device function before v;
                        },
                        looked bus device function log,
                        refl,
                      ),
                    )
                | inr miss ↦
                    let here = not_here bus device function miss in
                    elim (function_loop-Searched bus device k (suc function)
                      (looked bus device function log) (omega arith)
                      (λ g p. upto bus device function before v g (omega arith))) [
                        | inl (log', r, none_later) ↦ inl (
                          log',
                          miss_runs bus device k function log there miss ∙ r,
                          λ j p q.
                              first_or_later (NoFunction bus device) function here j p
                                (λ s. none_later j s q),
                        )
                        | inr (j, x, p, q, none_later, r, hit) ↦ inr (
                          j,
                          x,
                          omega arith,
                          q,
                          (λ l s u.
                              first_or_later (NoFunction bus device) function here l s
                                (λ w. none_later l w u)),
                          miss_runs bus device k function log there miss ∙ r,
                          hit,
                        )
                      ]
              ]
        ]
      where
        upto :
            (bus device function : ℕ)
            → ((g : ℕ) → suc g ≤ function → vendor bus device g ≢ pci_vendor_id_invalid)
            → vendor bus device function ≢ pci_vendor_id_invalid
            → (g : ℕ) → g ≤ function
            → vendor bus device g ≢ pci_vendor_id_invalid
        upto bus device function before v g p = elim (Bool-cases (g == function)) [
          | inl same ↦ let g≡ : g ≡ function = ground arith in rw g≡ v
          | inr other ↦ before g (ground arith)
        ]

        not_here :
            (bus device function : ℕ)
            → matches bus device function ≡ false
            → NoFunction bus device function
        not_here bus device function miss c =
            let a : (id.vendor_id == vendor bus device function) ≡ true =
              ground (arith, c.vendor_eq) in
            let b : (id.device_id == config_at config 16 (at bus device function) pci_device_id)
                ≡ true =
              ground (arith, c.device_eq) in
            absurd (
              let both = and_both _ _ a b in
              let clash : false ≡ true = sym miss ∙ both in ground (arith, clash))

    device_loop-Searched :
        (bus : ℕ) (log : Log)
        → Searched
            (NoDevice bus)
            (DeviceHit bus)
            0
            pci_max_device
            (device_loop wires id bus pci_max_device 0 log)
    unfolding device_loop
    device_loop-Searched bus log =
        loop-Searched (device_loop wires id bus)
          (λ device. function_loop wires id bus device pci_max_function 0) (λ i log. refl)
          (λ k i log. refl) (NoDevice bus) (DeviceHit bus) pci_max_device
          (λ device log p.
            elim (function_loop-Searched bus device pci_max_function 0 log refl
              (λ g q. absurd (omega (arith, q)))) [
                | inl (log', r, none_there) ↦ inl (log', r, none_there)
                | inr (j, x, a, b, before, r, hit) ↦ inr (x, r, (j, b, before, hit))
              ])
          pci_max_device 0 log refl

    bus_loop-Searched :
        (log : Log) → Searched NoBus BusHit 0 pci_max_bus (bus_loop wires id pci_max_bus 0 log)
    unfolding bus_loop
    bus_loop-Searched log =
        loop-Searched (bus_loop wires id) (λ bus. device_loop wires id bus pci_max_device 0)
          (λ i log. refl) (λ k i log. refl) NoBus BusHit pci_max_bus
          (λ bus log p. elim (device_loop-Searched bus log) [
            | inl (log', r, none_there) ↦ inl (log', r, none_there)
            | inr (j, x, a, b, before, r, hit) ↦ inr (x, r, (j, b, before, hit))
          ])
          pci_max_bus 0 log refl

    lookup_none_runs :
        (log log' : Log)
        → bus_loop wires id pci_max_bus 0 log ≡ (ok none, log')
        → lookup_pci_dev wires id log ≡ (invalid, log')
    unfolding lookup_pci_dev
    lookup_none_runs log log' e = rw e refl

    lookup_found_runs :
        (log : Log) (x : Result PciDev × Log)
        → bus_loop wires id pci_max_bus 0 log ≡ found x
        → lookup_pci_dev wires id log ≡ x
    unfolding lookup_pci_dev
    lookup_found_runs log (ok a, l) e = rw e refl
    lookup_found_runs log (invalid, l) e = rw e refl
    lookup_found_runs log (fault, l) e = rw e refl
    lookup_found_runs log (hang, l) e = rw e refl

    -- On a configuration space that the ports show, `lookup_pci_dev` returns what `init_pci_dev`
    -- returns at the first function in the order of bus, device and function that has the ids and
    -- before which no function of its device is absent, or it fails and there is no such function.
    pub lookup_pci_dev-First :
        (log : Log)
        → ((log' : Log) × (lookup_pci_dev wires id log ≡ (invalid, log'))
            × ((bus : ℕ) → 0 ≤ bus → bus < pci_max_bus → NoBus bus))
          ⊎ ((bus : ℕ) × (bus < pci_max_bus)
              × ((l : ℕ) → 0 ≤ l → l < bus → NoBus l)
              × BusHit bus (lookup_pci_dev wires id log))
    lookup_pci_dev-First log = elim (bus_loop-Searched log) [
      | inl (log', r, none_there) ↦ inl (log', lookup_none_runs log log' r, none_there)
      | inr (bus, x, p, q, before, r, hit) ↦
          inr (bus, q, before, rw (lookup_found_runs log x r) hit)
    ]
