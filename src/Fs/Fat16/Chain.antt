-- ===== src/Fs/Fat16/Chain.antt =====
-- src/fs/fat16.c: the table of clusters and the clusters themselves.
-- The chains on a disk can be circular, so a walk has rounds of fuel, and `none` when they run out.
pub mod Results
use dosfs.Prelude.{
  ℕ, zero, suc, ◌+◌, ◌-◌, ◌*◌, ◌/◌, ◌%◌, ◌^◌, Bool, true, false, ◌&&◌, ◌||◌, Option, none, some,
  List, ◌++◌, ltb, leb, ◌==◌, if◌then◌else◌, take, drop, replicate, ℤ, pos, negsuc, min,
}
use dosfs.Fs.Disk.{Disk, ata_read_sectors}
use dosfs.Fs.Fat16.{Fat, u32, get16, put16, cluster_size}

-- the sector of the table that holds a cluster's entry, and the offset in it
abbrev pub fat_sector : Fat → ℕ → ℕ
fat_sector fs cluster = u32 (fs.fat_start + u32 (cluster * 2) / 512)

abbrev pub ent_offset : ℕ → ℕ
ent_offset cluster = u32 (cluster * 2) % 512

-- the first sector of a cluster
abbrev pub cluster_sector : Fat → ℕ → ℕ
cluster_sector fs cluster =
    u32 (fs.data_start + (cluster + 2 ^ 32 - 2) * fs.bpb.sectors_per_cluster)

-- `cluster >= 2 && cluster < 0xFF8`
abbrev pub in_chain : ℕ → Bool
in_chain cluster = leb 2 cluster && ltb cluster 0xFF8

module _ (D : Disk) where
  open D use {Sectors, read_sector, write_sector}

  unfoldable pub fat16_get_next_cluster : Fat → ℕ → Sectors → ℕ
  fat16_get_next_cluster fs cluster d = elim (read_sector (fat_sector fs cluster) d) [
    | none ↦ 0xFFF8
    | some s ↦ get16 s (ent_offset cluster)
  ]

  unfoldable pub fat16_read_cluster : Fat → ℕ → Sectors → Option (List ℕ)
  fat16_read_cluster fs cluster d =
      ata_read_sectors D (cluster_sector fs cluster) fs.bpb.sectors_per_cluster d

  -- Writes one entry of the table, where its sector can be read.
  pub write_entry : Fat → ℕ → ℕ → Sectors → Sectors
  write_entry fs cluster v d = elim (read_sector (fat_sector fs cluster) d) [
    | none ↦ d
    | some s ↦ (write_sector (fat_sector fs cluster) (put16 s (ent_offset cluster) v) d).1
  ]

  -- the first free cluster of a sector of the table, among its `n` entries from `i` on
  pub free_entry : Fat → List ℕ → ℕ → ℕ → ℕ → Option ℕ
  free_entry fs sector sector_idx zero i = none
  free_entry fs sector sector_idx (suc n) i =
      let cluster = sector_idx * 256 + i in
      let rest = free_entry fs sector sector_idx n (i + 1) in
      if ltb cluster 2 || leb (2 + fs.total_clusters) cluster
      then rest
      else if get16 sector (i * 2) == 0
      then some i
      else rest

  -- the sectors of the table, `n` of them from `sector_idx` on
  pub allocate_from : Fat → ℕ → ℕ → Sectors → ℕ × Sectors
  unfolding free_entry
  allocate_from fs zero sector_idx d = (0, d)
  allocate_from fs (suc n) sector_idx d =
      let rest = allocate_from fs n (sector_idx + 1) d in
      let lba = u32 (fs.fat_start + sector_idx) in
      elim (read_sector lba d) [
        | none ↦ rest
        | some sector ↦ elim (free_entry fs sector sector_idx 256 0) [
          | none ↦ rest
          | some i ↦
              let (ok, d') = write_sector lba (put16 sector (i * 2) 0xFFFF) d in
              if ok then (sector_idx * 256 + i, d') else (0, d')
        ]
      ]

  -- 0 when no cluster is free
  pub fat16_allocate_cluster : Fat → Sectors → ℕ × Sectors
  unfolding allocate_from
  fat16_allocate_cluster fs d = allocate_from fs fs.bpb.fat_size_16 0 d

  -- the sectors of a cluster, `n` of them from sector `s` on, with what is left to write
  pub write_sectors : ℕ → ℕ → List ℕ → ℕ → Sectors → Bool × Sectors
  write_sectors zero lba bytes left d = (true, d)
  write_sectors (suc n) lba bytes left d =
      let chunk = min left 512 in
      let (ok, d') = write_sector (u32 lba) (take chunk bytes ++ replicate (512 - chunk) 0) d in
      let rest = write_sectors n (lba + 1) (drop chunk bytes) (left - chunk) d' in
      if left == 0 then (true, d) else if ok then rest else (false, d')

  -- The number of bytes written, or -1.
  pub fat16_write_cluster : Fat → ℕ → List ℕ → ℕ → Sectors → ℤ × Sectors
  unfolding write_sectors
  fat16_write_cluster fs cluster bytes size d =
      let to_write = if ltb size (cluster_size fs) then size else cluster_size fs in
      let (ok, d') =
        write_sectors fs.bpb.sectors_per_cluster (cluster_sector fs cluster) bytes to_write d in
      if ok then (pos to_write, d') else (negsuc 0, d')

  pub fat16_free_cluster_chain : ℕ → Fat → ℕ → Sectors → Option Sectors
  unfolding fat16_get_next_cluster write_entry
  fat16_free_cluster_chain zero fs cluster d = if in_chain cluster then none else some d
  fat16_free_cluster_chain (suc n) fs cluster d =
      let next = fat16_get_next_cluster fs cluster d in
      let rest = fat16_free_cluster_chain n fs next (write_entry fs cluster 0 d) in
      if in_chain cluster then rest else some d
