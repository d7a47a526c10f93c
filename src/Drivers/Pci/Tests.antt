-- ===== src/Drivers/Pci/Tests.antt =====
-- A bus on which every register reads the same.
use dosfs.Prelude.{ℕ, ◌≤◌, length}
use dosfs.Drivers.Ports.{Ports}
use dosfs.Drivers.Pci.{pci_scan_all}
use dosfs.Drivers.Pci.Bound.{pci_scan_all-Fits}

abbrev bridges : Ports
bridges = record {
  Machine = ℕ;
  outb = λ port v m. m;
  inb = λ port m. (0, m);
  outl = λ port v m. v;
  inl = λ port m. (0x060401FF, m);
}

pci_scan_all-Fits_example : length (pci_scan_all bridges 0).0 ≤ 128
pci_scan_all-Fits_example = pci_scan_all-Fits bridges 0
