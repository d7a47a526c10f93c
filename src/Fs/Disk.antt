-- ===== src/Fs/Disk.antt =====
-- What src/fs/fat16.c uses of the disk: `ata_read_sector` and `ata_write_sector` of
-- src/drivers/ata.c, which talk to the drive through ports. A read that fails is `none`, a write
-- says whether it went well. Reading does not change what is on the disk.
use dosfs.Prelude.{ℕ, zero, suc, ◌+◌, ◌%◌, ◌^◌, Bool, Option, none, some, List, [], ◌++◌}

pub record Disk : Type 1 where
  pub Sectors : Type 0
  pub read_sector : ℕ → Sectors → Option (List ℕ)
  pub write_sector : ℕ → List ℕ → Sectors → Bool × Sectors

-- `ata_read_sectors`: the bytes of `count` sectors, unless one cannot be read.
unfoldable pub ata_read_sectors : (D : Disk) → ℕ → ℕ → D.Sectors → Option (List ℕ)
ata_read_sectors D lba zero d = some []
ata_read_sectors D lba (suc n) d = elim (D.read_sector (lba % 2 ^ 32) d) [
  | none ↦ none
  | some s ↦ elim (ata_read_sectors D (lba + 1) n d) [ none ↦ none | some rest ↦ some (s ++ rest) ]
]
