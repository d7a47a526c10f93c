-- ===== src/Fs/Fat16/Tests.antt =====
-- A small volume on a disk in memory.
use dosfs.Prelude.{
  ℕ, ◌≡◌, ◌⊎◌, refl, true, some, List, [], ◌∷◌, arith, replicate, if◌then◌else◌, ◌==◌,
}
use dosfs.Libc.{memcpy}
use dosfs.Fs.Disk.{Disk}
use dosfs.Fs.Fat16.{Fat, zero_fat, fat16_parse_name, fat16_unparse_name}
use dosfs.Fs.Fat16.Chain.{fat16_allocate_cluster}
use dosfs.Fs.Fat16.Chain.Results.{Allocated, fat16_allocate_cluster-Allocated}
use dosfs.Fs.Fat16.Files.{fat16_write_file}
use dosfs.Fs.Fat16.Files.Write.{Fails, fat16_write_file-Fails}

-- Every sector can be read and written.
abbrev memory_disk : Disk
memory_disk = record {
  Sectors = ℕ → List ℕ;
  read_sector = λ lba d. some (d lba);
  write_sector = λ lba s d. (true, λ a. if a == lba then s else d a);
}

abbrev blank_disk : ℕ → List ℕ
blank_disk lba = replicate 512 0

-- One sector of table, one of root directory, 60 clusters of one sector.
abbrev small : Fat
small = record zero_fat {
  bpb = record {
    bytes_per_sector = 512;
    sectors_per_cluster = 1;
    reserved_sectors = 1;
    num_fats = 1;
    root_entries = 16;
    total_sectors_16 = 63;
    fat_size_16 = 1;
    total_sectors_32 = 0;
  };
  fat_start = 1;
  root_start = 2;
  data_start = 3;
  total_clusters = 60;
  mounted = true;
}

abbrev name : List ℕ
name = b'a' ∷ b'.' ∷ b't' ∷ b'x' ∷ []

parsed :
    fat16_unparse_name (fat16_parse_name name) (replicate 13 0)
    ≡ b'A' ∷ b'.' ∷ b'T' ∷ b'X' ∷ replicate 9 0
unfolding fat16_parse_name fat16_unparse_name memcpy
parsed = refl

fat16_write_file-Fails_example :
    Fails memory_disk (fat16_write_file memory_disk 100 small name (7 ∷ []) 1 blank_disk)
fat16_write_file-Fails_example =
    fat16_write_file-Fails memory_disk 100 small name (7 ∷ []) 1 blank_disk (omega arith)
      (omega arith)

fat16_allocate_cluster-Allocated_example :
    ((fat16_allocate_cluster memory_disk small blank_disk).0 ≡ 0)
    ⊎ Allocated memory_disk small blank_disk
        (fat16_allocate_cluster memory_disk small blank_disk).0
        (fat16_allocate_cluster memory_disk small blank_disk).1
fat16_allocate_cluster-Allocated_example =
    fat16_allocate_cluster-Allocated memory_disk small blank_disk
