-- ===== src/Drivers/Pci/Classes.antt =====
-- What is recorded of a device's class.
use dosfs.Prelude.{ℕ, ◌+◌, ◌*◌, ◌^◌, ◌<◌, ◌≡◌, arith}
use dosfs.Drivers.Pci.{make_device}

-- In the register at offset 8 the class stands above the subclass, the interface and the revision.
-- Each of the four is recorded in the place of the next.
pub make_device-shifted :
    (bus dev func id head irq class_of sub interface rev : ℕ)
    → class_of < 256
    → sub < 256
    → interface < 256
    → rev < 256
    → let d =
        make_device bus dev func id
          (class_of * 2 ^ 24 + sub * 2 ^ 16 + interface * 2 ^ 8 + rev)
          head
          irq in
      (d.class_code ≡ sub)
      × (d.subclass ≡ interface)
      × (d.prog_if ≡ rev)
      × (d.revision_id ≡ class_of)
unfolding make_device
make_device-shifted bus dev func id head irq class_of sub interface rev c s i r =
    (omega (arith, s, i, r), omega (arith, i, r), omega (arith, r), omega (arith, c, s, i, r))
