-- ===== src/Fs/Fat16/Files.antt =====
-- src/fs/fat16.c: reading, writing and deleting a file.
-- `kmalloc_gives k` says whether the `kmalloc` of the `k`-th round of a read returns a buffer, which
-- the round frees again. The state is the mounted volume and the disk.
pub mod Read
pub mod Write
mod Tests
use dosfs.Prelude.{
  ℕ, zero, suc, ◌+◌, ◌-◌, ◌*◌, ◌/◌, ◌%◌, ◌^◌, Bool, true, false, not, ◌&&◌, ◌||◌, Option, none,
  some, List, [], ◌∷◌, ◌++◌, ltb, leb, ◌==◌, if◌then◌else◌, take, drop, set, ℤ, pos, negsuc,
  is_zero, min,
}
use dosfs.Libc.{memcpy, memcmp, strncpy}
use dosfs.Fs.Disk.{Disk}
use dosfs.Fs.Fat16.{
  Fat, FatFile, u32, get16, put16, put32, byte_of, file_at, find_file, root_sectors, cluster_size,
  fat16_parse_name,
}
use dosfs.Fs.Fat16.Chain.{
  in_chain, fat16_get_next_cluster, fat16_read_cluster, write_entry, fat16_allocate_cluster,
  fat16_write_cluster, fat16_free_cluster_chain,
}
use dosfs.Fs.Fat16.Root.{find_root}

-- `memcmp(entry->name, parsed_name, 11) == 0`
pub entry_named : List ℕ → List ℕ → ℕ → Bool
entry_named parsed sector i = is_zero (memcmp (drop i sector) parsed 11)

-- an entry that may be taken for a new file
pub entry_free : List ℕ → ℕ → Bool
entry_free sector i = (byte_of sector i == 0) || (byte_of sector i == 0xE5)

-- the entry that `fat16_write_file` writes at offset `i`
pub put_entry : List ℕ → ℕ → List ℕ → ℕ → ℕ → List ℕ
put_entry sector i parsed size first =
    let named = take i sector ++ memcpy (drop i sector) parsed 11 in
    let sized = put32 (set named (i + 11) 0x20) (i + 28) size in
    put16 (put16 sized (i + 26) (first % 65536)) (i + 20) (first / 65536 % 65536)

-- the file that `fat16_write_file` adds to the list
pub add_file : Fat → List ℕ → ℕ → ℕ → Fat
add_file fs name size first =
    if ltb fs.file_count 64
    then record fs {
      files = set fs.files fs.file_count (record {
        name = set (strncpy (file_at fs fs.file_count).name name 12) 12 0;
        size = size;
        first_cluster = first % 65536;
        attr = 0x20;
        used = true;
      });
      file_count = fs.file_count + 1;
    }
    else fs

-- the file's mark in the list, which `fat16_delete_file` takes away
pub drop_file : List ℕ → Fat → Fat
unfolding find_file
drop_file name fs = elim (find_file fs.file_count 0 name fs) [
  | none ↦ fs
  | some j ↦ record fs { files = set fs.files j (record (file_at fs j) { used = false }) }
]

module _ (D : Disk) where
  open D use {Sectors, write_sector}

  -- The loop of `fat16_read_file`: the number of bytes read, and the buffer.
  pub read_from :
      (ℕ → Bool) → ℕ → ℕ → Fat → FatFile → List ℕ → ℕ → ℕ → ℕ → Sectors → Option (ℕ × List ℕ)
  read_from kmalloc_gives zero k fs file buf max_size cluster bytes_read d =
      if in_chain cluster && ltb bytes_read max_size then none else some (bytes_read, buf)
  read_from kmalloc_gives (suc n) k fs file buf max_size cluster bytes_read d =
      if not (in_chain cluster && ltb bytes_read max_size && kmalloc_gives k)
      then some (bytes_read, buf)
      else elim (fat16_read_cluster D fs cluster d) [
        | none ↦ some (bytes_read, buf)
        | some bytes ↦
            let left = u32 (file.size + 2 ^ 32 - bytes_read) in
            let clipped = if ltb (cluster_size fs) left then cluster_size fs else left in
            let to_copy =
              if ltb max_size (u32 (bytes_read + clipped))
              then max_size - bytes_read
              else clipped in
            let buf' = take bytes_read buf ++ memcpy (drop bytes_read buf) bytes to_copy in
            read_from kmalloc_gives n (k + 1) fs file buf' max_size
              (fat16_get_next_cluster D fs cluster d) (u32 (bytes_read + to_copy)) d
      ]

  pub fat16_read_file : (ℕ → Bool) → ℕ → Fat → List ℕ → List ℕ → ℕ → Sectors → Option (ℤ × List ℕ)
  unfolding find_file read_from
  fat16_read_file kmalloc_gives fuel fs name buf max_size d =
      if not fs.mounted then some (negsuc 0, buf) else elim (find_file fs.file_count 0 name fs) [
        | none ↦ some (negsuc 0, buf)
        | some i ↦
            let file = file_at fs i in
            elim (read_from kmalloc_gives fuel 0 fs file buf max_size file.first_cluster 0 d) [
              | none ↦ none
              | some (bytes_read, buf') ↦ some (pos bytes_read, buf')
            ]
      ]

  pub fat16_delete_file : ℕ → Fat → List ℕ → Sectors → Option (ℤ × Fat × Sectors)
  fat16_delete_file fuel fs name d =
      if not fs.mounted
      then some (negsuc 0, fs, d)
      else elim (find_root D (entry_named (fat16_parse_name name)) (root_sectors fs) 0 fs d) [
        | none ↦ some (negsuc 0, fs, d)
        | some (lba, sector, i) ↦
            let first = get16 sector (i + 26) in
            let freed =
              if leb 2 first then fat16_free_cluster_chain D fuel fs first d else some d in
            elim freed [
              | none ↦ none
              | some d1 ↦
                  let (ok, d2) = write_sector lba (set sector i 0xE5) d1 in
                  if ok then some (pos 0, drop_file name fs, d2) else some (negsuc 0, fs, d2)
            ]
      ]

  -- The clusters of a new file, `n` of them from the `c`-th on, and whether the write failed.
  pub write_clusters : ℕ → ℕ → Fat → ℕ → ℕ → List ℕ → ℕ → Sectors → Bool × Sectors
  write_clusters zero c fs first prev bytes remaining d = (false, d)
  write_clusters (suc n) c fs first prev bytes remaining d =
      let (cur, d1) = if c == 0 then (first, d) else fat16_allocate_cluster D fs d in
      let d2 = if not (c == 0) && leb 2 prev then write_entry D fs prev cur d1 else d1 in
      let to_write = if ltb remaining (cluster_size fs) then remaining else cluster_size fs in
      let (written, d3) = fat16_write_cluster D fs cur bytes to_write d2 in
      let rest =
        write_clusters n (c + 1) fs first cur (drop to_write bytes) (remaining - to_write) d3 in
      if ltb cur 2 then (true, d1) else if not (is_zero written) then (true, d3) else rest

  -- the root directory's entry for the new file
  pub create_entry : Fat → List ℕ → ℕ → ℕ → Sectors → ℤ × Fat × Sectors
  unfolding entry_free put_entry add_file
  create_entry fs name size first d = elim (find_root D entry_free (root_sectors fs) 0 fs d) [
    | none ↦ (negsuc 0, fs, d)
    | some (lba, sector, i) ↦
        let (ok, d') = write_sector lba (put_entry sector i (fat16_parse_name name) size first) d in
        if ok then (pos size, add_file fs name size first, d') else (negsuc 0, fs, d')
  ]

  -- `fat16_write_file` from the first cluster's allocation on
  pub write_new : ℕ → Fat → List ℕ → List ℕ → ℕ → Sectors → Option (ℤ × Fat × Sectors)
  write_new fuel fs name bytes size d =
      let counted = u32 (size + cluster_size fs + 2 ^ 32 - 1) / cluster_size fs in
      let needed = if counted == 0 then 1 else counted in
      let (allocated, d1) = fat16_allocate_cluster D fs d in
      if ltb allocated 2 && ltb 0 size
      then some (negsuc 0, fs, d1)
      else let first = if ltb allocated 2 then 0 else allocated in
        let (failed, d2) = write_clusters needed 0 fs first first bytes size d1 in
        if failed && leb 2 first
        then elim (fat16_free_cluster_chain D fuel fs first d2) [
          | none ↦ none
          | some d3 ↦ some (negsuc 0, fs, d3)
        ]
        else some (create_entry fs name size first d2)

  pub fat16_write_file : ℕ → Fat → List ℕ → List ℕ → ℕ → Sectors → Option (ℤ × Fat × Sectors)
  fat16_write_file fuel fs name bytes size d =
      if not fs.mounted then some (negsuc 0, fs, d) else elim (fat16_delete_file fuel fs name d) [
        | none ↦ none
        | some (r, fs', d') ↦ write_new fuel fs' name bytes size d'
      ]

  pub fat16_create_file : ℕ → Fat → List ℕ → Sectors → Option (ℤ × Fat × Sectors)
  unfolding fat16_write_file
  fat16_create_file fuel fs name d = fat16_write_file fuel fs name [] 0 d
