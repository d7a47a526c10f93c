-- ===== src/Drivers/Pci/Bound.antt =====
-- The table of devices is never overrun.
use dosfs.Prelude.{
  ℕ, zero, suc, ◌+◌, ◌≤◌, ◌≡◌, inl, inr, Bool, true, false, not, List, [], ◌∷◌, ◌++◌, Option-cases,
  ◌==◌, ◌/◌, ◌%◌, arith, length, length-append, Bool-cases, leb, if◌then◌else◌,
}
use dosfs.Drivers.Ports.{Ports}
use dosfs.Drivers.Pci.{
  make_device, PciDevice, Scan, pci_config_read, pci_device_check, pci_add_device, scan_functions,
  pci_scan_device, scan_devices, pci_scan_bus, scan_bridges, pci_scan_all, pci_get_device,
  is_bridge,
}

module _ (P : Ports) where
  -- at most 128 devices
  abbrev pub Fits : Scan P → Type 0
  Fits k = length k.0 ≤ 128

  grown :
      (ds : List PciDevice) (d : PciDevice)
      → leb 128 (length ds) ≡ false
      → length (ds ++ (d ∷ [])) ≤ 128
  grown ds d spare = ground (arith, length-append ds (d ∷ []))

  either : (b : Bool) (k l : Scan P) → Fits k → Fits l → Fits (if b then k else l)
  either true k l f g = f
  either false k l f g = g

  pci_add_device-Fits :
      (bus dev func : ℕ) (k : Scan P) → Fits k → Fits (pci_add_device P bus dev func k)
  unfolding pci_add_device
  pci_add_device-Fits bus dev func (ds, m) f =
      let id = pci_config_read P bus dev func 0x00 m in
      let rev = pci_config_read P bus dev func 0x08 id.1 in
      let head = pci_config_read P bus dev func 0x0E rev.1 in
      let irq = pci_config_read P bus dev func 0x3C head.1 in
      elim (Bool-cases (leb 128 (length ds))) [
        | inl full ↦ rw full f
        | inr spare ↦
            rw spare (grown ds (make_device bus dev func (id.0) (rev.0) (head.0) (irq.0)) spare)
      ]

  scan_functions-Fits :
      (n bus dev func : ℕ) (k : Scan P) → Fits k → Fits (scan_functions P n bus dev func k)
  unfolding scan_functions
  scan_functions-Fits zero bus dev func k f = f
  scan_functions-Fits (suc n) bus dev func (ds, m) f =
      let c = pci_device_check P bus dev func m in
      scan_functions-Fits n bus dev (func + 1)
        (if c.0 then pci_add_device P bus dev func (ds, c.1) else (ds, c.1))
        (either c.0 (pci_add_device P bus dev func (ds, c.1)) (ds, c.1)
          (pci_add_device-Fits bus dev func (ds, c.1) f) f)

  pci_scan_device-Fits : (bus dev : ℕ) (k : Scan P) → Fits k → Fits (pci_scan_device P bus dev k)
  unfolding pci_scan_device
  pci_scan_device-Fits bus dev (ds, m) f =
      let c = pci_device_check P bus dev 0 m in
      let a = pci_add_device P bus dev 0 (ds, c.1) in
      let g = pci_add_device-Fits bus dev 0 (ds, c.1) f in
      let h = pci_config_read P bus dev 0 0x0E a.1 in
      let others = scan_functions P 7 bus dev 1 (a.0, h.1) in
      either (not c.0) (ds, c.1) (if h.0 / 128 % 2 == 1 then others else (a.0, h.1)) f
        (either (h.0 / 128 % 2 == 1) others (a.0, h.1)
          (scan_functions-Fits 7 bus dev 1 (a.0, h.1) g) g)

  scan_devices-Fits : (n bus dev : ℕ) (k : Scan P) → Fits k → Fits (scan_devices P n bus dev k)
  unfolding scan_devices
  scan_devices-Fits zero bus dev k f = f
  scan_devices-Fits (suc n) bus dev k f =
      scan_devices-Fits n bus (dev + 1) (pci_scan_device P bus dev k)
        (pci_scan_device-Fits bus dev k f)

  pci_scan_bus-Fits : (bus : ℕ) (k : Scan P) → Fits k → Fits (pci_scan_bus P bus k)
  unfolding pci_scan_bus
  pci_scan_bus-Fits bus k f = scan_devices-Fits 32 bus 0 k f

  scan_bridges-Fits : (n i : ℕ) (k : Scan P) → Fits k → Fits (scan_bridges P n i k)
  unfolding scan_bridges
  scan_bridges-Fits zero i k f = f
  scan_bridges-Fits (suc n) i (ds, m) f = elim (Option-cases (pci_get_device ds i)) [
    | inl e ↦ rw (scan_bridges, e) f
    | inr (d, e) ↦
        let sec = pci_config_read P d.bus d.device d.func 0x19 m in
        let further = pci_scan_bus P (sec.0 / 256 % 256) (ds, sec.1) in
        let deeper : Scan P = if sec.0 / 256 % 256 == 0 then (ds, sec.1) else further in
        rw (scan_bridges, e)
          (scan_bridges-Fits n (i + 1) (if not (is_bridge d) then (ds, m) else deeper) (
            either (not (is_bridge d)) (ds, m) deeper f
              (either (sec.0 / 256 % 256 == 0) (ds, sec.1) further f
                (pci_scan_bus-Fits (sec.0 / 256 % 256) (ds, sec.1) f))))
  ]

  -- Whatever answers behind the ports, at most 128 devices are found.
  pub pci_scan_all-Fits : (m : P.Machine) → length (pci_scan_all P m).0 ≤ 128
  unfolding pci_scan_all
  pci_scan_all-Fits m =
      scan_bridges-Fits 128 0 (pci_scan_bus P 0 ([], m)) (pci_scan_bus-Fits 0 ([], m) (omega arith))
