-- ===== src/Fs/Fat16/Files/Tests.antt =====
-- A volume with one file of ten bytes, in one cluster, on two disks.
use dosfs.Prelude.{
  zero, suc, ◌<◌, ◌+◌, ℕ, ◌≡◌, refl, true, false, none, some, List, [], ◌∷◌, arith, replicate, pos,
  ◌++◌,
}
use dosfs.Libc.{strcasecmp}
use dosfs.Fs.Disk.{Disk, ata_read_sectors}
use dosfs.Fs.Fat16.{Fat, zero_fat, find_file, file_at}
use dosfs.Fs.Fat16.Chain.{in_chain, fat16_get_next_cluster, fat16_read_cluster}
use dosfs.Fs.Fat16.Files.{fat16_read_file}
use dosfs.Fs.Fat16.Files.Read.{follow, Readable, fat16_read_file-Returns, fat16_read_file-circles}

-- Every sector can be read.
abbrev disk : Disk
disk = record {
  Sectors = ℕ → List ℕ;
  read_sector = λ lba d. some (d lba);
  write_sector = λ lba s d. (true, d);
}

abbrev name : List ℕ
name = b'a' ∷ []

abbrev volume : Fat
volume = record zero_fat {
  bpb = record {
    bytes_per_sector = 512;
    sectors_per_cluster = 1;
    reserved_sectors = 1;
    num_fats = 1;
    root_entries = 16;
    total_sectors_16 = 63;
    fat_size_16 = 1;
    total_sectors_32 = 0;
  };
  fat_start = 1;
  root_start = 2;
  data_start = 3;
  total_clusters = 60;
  mounted = true;
  files = record { name = name; size = 10; first_cluster = 2; attr = 0x20; used = true } ∷ [];
  file_count = 1;
}

-- The entry of cluster 2 in the table is its own number, or an end mark.
abbrev circle : ℕ → List ℕ
circle lba = 0 ∷ 0 ∷ 0 ∷ 0 ∷ 2 ∷ 0 ∷ replicate 506 0

abbrev ended : ℕ → List ℕ
ended lba = 0 ∷ 0 ∷ 0 ∷ 0 ∷ 0xFF ∷ 0xFF ∷ replicate 506 0

found : find_file volume.file_count 0 name volume ≡ some 0
unfolding find_file strcasecmp
found = refl

ends : in_chain (follow disk 1 volume (file_at volume 0).first_cluster ended) ≡ false
unfolding follow fat16_get_next_cluster
ends = refl

-- Cluster 2 comes back to itself.
comes_back :
    follow disk (0 + 1) volume (file_at volume 0).first_cluster circle
    ≡ follow disk 0 volume (file_at volume 0).first_cluster circle
unfolding follow fat16_get_next_cluster
comes_back = refl

readable :
    (j : ℕ)
    → j < 0 + 1
    → Readable disk volume circle (follow disk j volume (file_at volume 0).first_cluster circle)
unfolding Readable follow fat16_read_cluster ata_read_sectors
readable zero lt = (refl, (circle 3 ++ [], refl))
readable (suc j) lt = absurd (omega (arith, lt))

fat16_read_file-Returns_example :
    (bytes_read : ℕ) × (buf' : List ℕ) × (fat16_read_file disk
        (λ k. true)
        1
        volume
        name
        (replicate 20 0)
        20
        ended
      ≡ some (pos bytes_read, buf'))
fat16_read_file-Returns_example =
    fat16_read_file-Returns disk (λ k. true) 1 0 volume name (replicate 20 0) 20 ended refl found
      ends

fat16_read_file-circles_example :
    fat16_read_file disk (λ k. true) 1000 volume name (replicate 20 0) 20 circle ≡ none
fat16_read_file-circles_example =
    fat16_read_file-circles disk (λ k. true) 1000 0 0 1 volume name (replicate 20 0) 20 circle
      (λ j. refl) refl found (omega arith) comes_back readable (omega arith) (omega arith)
