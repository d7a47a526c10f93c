-- ===== src/Fs/Fat16/Root.antt =====
-- src/fs/fat16.c: the root directory and `fat16_mount`.
-- The count of free clusters, which `fat16_mount` makes for its message only, is left out, and so are
-- the messages.
use dosfs.Prelude.{
  ℕ, zero, suc, ◌+◌, ◌-◌, ◌*◌, ◌/◌, ◌%◌, Bool, true, false, not, Option, none, some, List, ltb, leb,
  ◌==◌, if◌then◌else◌, drop, set, ℤ, pos, negsuc,
}
use dosfs.Fs.Disk.{Disk}
use dosfs.Fs.Fat16.{
  Fat, Bpb, u32, get16, get32, byte_of, file_at, root_sectors, read_bpb, zero_fat,
  fat16_unparse_name,
}

-- What `fat16_scan_root` does at one entry: go on, go on with a file more, or stop.
pub data Found : Type 0 where
  skipped : Found
  listed : Fat → Found
  ended : Found
  full : Found

-- the file that is listed for the entry at offset `i`
pub list_entry : List ℕ → ℕ → Fat → Fat
list_entry sector i fs = record fs {
  files = set fs.files fs.file_count (record (file_at fs fs.file_count) {
    name = fat16_unparse_name (drop i sector) (file_at fs fs.file_count).name;
    size = get32 sector (i + 28);
    first_cluster = get16 sector (i + 26);
    attr = byte_of sector (i + 11);
    used = true;
  });
  file_count = fs.file_count + 1;
}

pub scan_entry : List ℕ → ℕ → Fat → Found
unfolding list_entry
scan_entry sector i fs =
    if byte_of sector i == 0
    then ended
    else if byte_of sector i == 0xE5
    then skipped
    else if byte_of sector (i + 11) == 0x0F
    then skipped
    else if byte_of sector (i + 11) / 8 % 2 == 1
    then skipped
    else if leb 64 fs.file_count
    then full
    else listed (list_entry sector i fs)

-- `n` entries of a sector from offset `i` on, and whether the scan is over
pub scan_sector : ℕ → List ℕ → ℕ → Fat → Fat × Bool
unfolding scan_entry
scan_sector zero sector i fs = (fs, false)
scan_sector (suc n) sector i fs = elim (scan_entry sector i fs) [
  | skipped ↦ scan_sector n sector (i + 32) fs
  | listed fs' ↦ scan_sector n sector (i + 32) fs'
  | ended ↦ (fs, true)
  | full ↦ (fs, true)
]

-- the offset of the first of `n` entries, from offset `i` on, that passes a test
pub find_entry : (List ℕ → ℕ → Bool) → ℕ → List ℕ → ℕ → Option ℕ
find_entry test zero sector i = none
find_entry test (suc n) sector i =
    let rest = find_entry test n sector (i + 32) in if test sector i then some i else rest

module _ (D : Disk) where
  open D use {Sectors, read_sector}

  -- `n` sectors of the root directory from the `s`-th on
  pub scan_sectors : ℕ → ℕ → Fat → Sectors → Fat
  unfolding scan_sector
  scan_sectors zero s fs d = fs
  scan_sectors (suc n) s fs d = elim (read_sector (u32 (fs.root_start + s)) d) [
    | none ↦ scan_sectors n (s + 1) fs d
    | some sector ↦
        let (fs', over) = scan_sector 16 sector 0 fs in
        let rest = scan_sectors n (s + 1) fs' d in if over then fs' else rest
  ]

  pub fat16_scan_root : Fat → Sectors → Fat
  unfolding scan_sectors
  fat16_scan_root fs d = scan_sectors (root_sectors fs) 0 (record fs { file_count = 0 }) d

  -- the layout that `fat16_mount` computes
  pub lay_out : Bpb → Fat
  lay_out b =
      let root_start = u32 (b.reserved_sectors + b.num_fats * b.fat_size_16) in
      let data_start = u32 (root_start + (b.root_entries * 32 + 511) / 512) in
      let total = if b.total_sectors_32 == 0 then b.total_sectors_16 else b.total_sectors_32 in
      record zero_fat {
        bpb = b;
        fat_start = b.reserved_sectors;
        root_start = root_start;
        data_start = data_start;
        total_clusters =
            if ltb data_start total then (total - data_start) / b.sectors_per_cluster else 0;
        mounted = true;
      }

  pub fat16_mount : Sectors → ℤ × Fat
  unfolding lay_out fat16_scan_root
  fat16_mount d = elim (read_sector 0 d) [
    | none ↦ (negsuc 0, zero_fat)
    | some sector ↦
        let b = read_bpb sector in
        let refused = record zero_fat { bpb = b } in
        if not (b.bytes_per_sector == 512)
        then (negsuc 0, refused)
        else if b.fat_size_16 == 0
        then (negsuc 0, refused)
        else if b.sectors_per_cluster == 0
        then (negsuc 0, refused)
        else (pos 0, fat16_scan_root (lay_out b) d)
  ]

  -- The first entry of the root directory that passes a test: its sector's number, its bytes and the
  -- offset. `n` sectors are looked at from the `s`-th on.
  pub find_root : (List ℕ → ℕ → Bool) → ℕ → ℕ → Fat → Sectors → Option (ℕ × List ℕ × ℕ)
  unfolding find_entry
  find_root test zero s fs d = none
  find_root test (suc n) s fs d =
      let rest = find_root test n (s + 1) fs d in
      elim (read_sector (u32 (fs.root_start + s)) d) [
        | none ↦ rest
        | some sector ↦ elim (find_entry test 16 sector 0) [
          | none ↦ rest
          | some i ↦ some (u32 (fs.root_start + s), sector, i)
        ]
      ]
