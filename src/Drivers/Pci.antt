-- ===== src/Drivers/Pci.antt =====
-- src/drivers/pci.c: the search for the devices of the PCI buses.
-- `devices` is the list of those found, and `device_count` its length. The fields of an address do
-- not overlap, for a device below 32 and a function below 8, so it is their sum. The tables of names
-- and printing are left out.
pub mod Classes
mod Bound
mod Tests
use dosfs.Prelude.{
  ℕ, zero, suc, ◌+◌, ◌-◌, ◌*◌, ◌/◌, ◌%◌, ◌^◌, Bool, true, false, not, ◌&&◌, Option, none, some,
  List, [], ◌∷◌, ◌++◌, ltb, leb, ◌==◌, if◌then◌else◌, length,
}
use dosfs.Drivers.Ports.{Ports}

pub record PciDevice : Type 0 where
  pub bus : ℕ
  pub device : ℕ
  pub func : ℕ
  pub vendor_id : ℕ
  pub device_id : ℕ
  pub class_code : ℕ
  pub subclass : ℕ
  pub prog_if : ℕ
  pub revision_id : ℕ
  pub header_type : ℕ
  pub interrupt_line : ℕ
  pub interrupt_pin : ℕ

abbrev pub pci_max_devices_found : ℕ
pci_max_devices_found = 128

-- what `pci_add_device` makes of the four registers that it reads
pub make_device : ℕ → ℕ → ℕ → ℕ → ℕ → ℕ → ℕ → PciDevice
make_device bus dev func id rev head irq = record {
  bus = bus;
  device = dev;
  func = func;
  vendor_id = id % 65536;
  device_id = id / 65536 % 65536;
  class_code = rev / 65536 % 256;
  subclass = rev / 256 % 256;
  prog_if = rev % 256;
  revision_id = rev / 2 ^ 24 % 256;
  header_type = head % 128;
  interrupt_line = irq % 256;
  interrupt_pin = irq / 256 % 256;
}

-- A negative index has no device either.
pub pci_get_device : List PciDevice → ℕ → Option PciDevice
pci_get_device [] i = none
pci_get_device (d ∷ ds) zero = some d
pci_get_device (d ∷ ds) (suc i) = pci_get_device ds i

abbrev pub is_bridge : PciDevice → Bool
is_bridge d = (d.class_code == 6) && (d.subclass == 4)

module _ (P : Ports) where
  open P use {Machine, outl, inl}

  -- the devices found and the machine
  abbrev pub Scan : Type 0
  Scan = List PciDevice × P.Machine

  pub pci_config_read : ℕ → ℕ → ℕ → ℕ → Machine → ℕ × Machine
  pci_config_read bus dev func offset m =
      let address = bus * 2 ^ 16 + dev * 2 ^ 11 + func * 2 ^ 8 + offset / 4 * 4 + 2 ^ 31 in
      inl 0xCFC (outl 0xCF8 address m)

  pub pci_device_check : ℕ → ℕ → ℕ → Machine → Bool × Machine
  unfolding pci_config_read
  pci_device_check bus dev func m =
      let (vendor, m') = pci_config_read bus dev func 0x00 m in (not (vendor == 0xFFFFFFFF), m')

  pub pci_add_device : ℕ → ℕ → ℕ → Scan → Scan
  unfolding pci_config_read make_device
  pci_add_device bus dev func (ds, m) =
      let (id, m1) = pci_config_read bus dev func 0x00 m in
      let (rev, m2) = pci_config_read bus dev func 0x08 m1 in
      let (head, m3) = pci_config_read bus dev func 0x0E m2 in
      let (irq, m4) = pci_config_read bus dev func 0x3C m3 in
      if leb pci_max_devices_found (length ds)
      then (ds, m)
      else (ds ++ (make_device bus dev func id rev head irq ∷ []), m4)

  -- the functions from `func` on, `n` of them
  pub scan_functions : ℕ → ℕ → ℕ → ℕ → Scan → Scan
  unfolding pci_device_check pci_add_device
  scan_functions zero bus dev func k = k
  scan_functions (suc n) bus dev func (ds, m) =
      let (found, m') = pci_device_check bus dev func m in
      let added = pci_add_device bus dev func (ds, m') in
      scan_functions n bus dev (func + 1) (if found then added else (ds, m'))

  pub pci_scan_device : ℕ → ℕ → Scan → Scan
  unfolding pci_device_check pci_add_device scan_functions
  pci_scan_device bus dev (ds, m) =
      let (found, m1) = pci_device_check bus dev 0 m in
      let (ds', m2) = pci_add_device bus dev 0 (ds, m1) in
      let (head, m3) = pci_config_read bus dev 0 0x0E m2 in
      let others = scan_functions 7 bus dev 1 (ds', m3) in
      if not found then (ds, m1) else if head / 128 % 2 == 1 then others else (ds', m3)

  -- the devices from `dev` on, `n` of them
  pub scan_devices : ℕ → ℕ → ℕ → Scan → Scan
  unfolding pci_scan_device
  scan_devices zero bus dev k = k
  scan_devices (suc n) bus dev k = scan_devices n bus (dev + 1) (pci_scan_device bus dev k)

  pub pci_scan_bus : ℕ → Scan → Scan
  unfolding scan_devices
  pci_scan_bus bus k = scan_devices 32 bus 0 k

  -- The loop of `pci_scan_all` over the devices, which grow as it runs, from device `i` on; at most
  -- 128 are found, so as many rounds are enough.
  pub scan_bridges : ℕ → ℕ → Scan → Scan
  unfolding pci_get_device pci_scan_bus
  scan_bridges zero i k = k
  scan_bridges (suc n) i (ds, m) = elim (pci_get_device ds i) [
    | none ↦ (ds, m)
    | some d ↦
        let (sec, m') = pci_config_read d.bus d.device d.func 0x19 m in
        let secondary_bus = sec / 256 % 256 in
        let further = pci_scan_bus secondary_bus (ds, m') in
        scan_bridges n (i + 1)
          (if not (is_bridge d) then (ds, m) else if secondary_bus == 0 then (ds, m') else further)
  ]

  pub pci_scan_all : Machine → Scan
  unfolding pci_scan_bus scan_bridges
  pci_scan_all m = scan_bridges 128 0 (pci_scan_bus 0 ([], m))
