-- ===== src/Fs/Fat16.antt =====
-- src/fs/fat16.c: the state, names and the bytes of a sector; the operations stand in the children.
-- A sector is the list of its bytes and the packed structures are read at their offsets.
-- Numbers are 32-bit patterns unless the source declares them narrower.
pub mod Chain
pub mod Root
pub mod Files
mod Tests
use dosfs.Prelude.{
  ℕ, zero, suc, ◌+◌, ◌-◌, ◌*◌, ◌/◌, ◌%◌, ◌^◌, Bool, true, false, not, ◌&&◌, ◌||◌, Option, none,
  some, List, [], ◌∷◌, ◌++◌, ltb, leb, ◌==◌, if◌then◌else◌, get_or, set, replicate, length, take,
  drop, is_zero,
}
use dosfs.Libc.{memcpy, strcasecmp, upper}

-- the fields of `fat16_bpb_t` that the source reads
pub record Bpb : Type 0 where
  pub bytes_per_sector : ℕ
  pub sectors_per_cluster : ℕ
  pub reserved_sectors : ℕ
  pub num_fats : ℕ
  pub root_entries : ℕ
  pub total_sectors_16 : ℕ
  pub fat_size_16 : ℕ
  pub total_sectors_32 : ℕ

-- `fat16_file_t`
pub record FatFile : Type 0 where
  pub name : List ℕ
  pub size : ℕ
  pub first_cluster : ℕ
  pub attr : ℕ
  pub used : Bool

-- `fat16_fs_t`
pub record Fat : Type 0 where
  pub bpb : Bpb
  pub fat_start : ℕ
  pub root_start : ℕ
  pub data_start : ℕ
  pub total_clusters : ℕ
  pub mounted : Bool
  pub files : List FatFile
  pub file_count : ℕ

abbrev pub zero_bpb : Bpb
zero_bpb = record {
  bytes_per_sector = 0;
  sectors_per_cluster = 0;
  reserved_sectors = 0;
  num_fats = 0;
  root_entries = 0;
  total_sectors_16 = 0;
  fat_size_16 = 0;
  total_sectors_32 = 0;
}

abbrev pub zero_file : FatFile
zero_file = record { name = replicate 13 0; size = 0; first_cluster = 0; attr = 0; used = false }

-- `memset(&fs, 0, sizeof(fs))`
pub zero_fat : Fat
zero_fat = record {
  bpb = zero_bpb;
  fat_start = 0;
  root_start = 0;
  data_start = 0;
  total_clusters = 0;
  mounted = false;
  files = replicate 64 zero_file;
  file_count = 0;
}

abbrev pub u32 : ℕ → ℕ
u32 n = n % 2 ^ 32

abbrev pub byte_of : List ℕ → ℕ → ℕ
byte_of s i = get_or s i 0

-- little-endian numbers in a sector
abbrev pub get16 : List ℕ → ℕ → ℕ
get16 s i = byte_of s i + 256 * byte_of s (i + 1)

abbrev pub get32 : List ℕ → ℕ → ℕ
get32 s i = get16 s i + 65536 * get16 s (i + 2)

abbrev pub put16 : List ℕ → ℕ → ℕ → List ℕ
put16 s i v = set (set s i (v % 256)) (i + 1) (v / 256 % 256)

abbrev pub put32 : List ℕ → ℕ → ℕ → List ℕ
put32 s i v = put16 (put16 s i v) (i + 2) (v / 65536)

-- `memcpy(&fs.bpb, sector, sizeof(fat16_bpb_t))`
pub read_bpb : List ℕ → Bpb
read_bpb s = record {
  bytes_per_sector = get16 s 11;
  sectors_per_cluster = byte_of s 13;
  reserved_sectors = get16 s 14;
  num_fats = byte_of s 16;
  root_entries = get16 s 17;
  total_sectors_16 = get16 s 19;
  fat_size_16 = get16 s 22;
  total_sectors_32 = get32 s 32;
}

-- The loop of `fat16_parse_name`, from the rest of the input, `j` and `dot_seen` on.
pub parse_from : List ℕ → ℕ → Bool → List ℕ → List ℕ
parse_from [] j dot_seen out = out
parse_from (c ∷ cs) j dot_seen out =
    let is_dot = c == b'.' in
    let j' = if is_dot then (if dot_seen then j else 8) else j + 1 in
    let out' = if is_dot then out else set out j (upper c) in
    let rest = parse_from cs j' (dot_seen || is_dot) out' in
    if (c == 0) || leb 11 j then out else rest

pub fat16_parse_name : List ℕ → List ℕ
unfolding parse_from
fat16_parse_name input = parse_from input 0 false (replicate 11 b' ')

-- the bytes that are no blanks
pub no_blanks : List ℕ → List ℕ
no_blanks [] = []
no_blanks (c ∷ cs) = let rest = no_blanks cs in if c == b' ' then rest else c ∷ rest

-- what `fat16_unparse_name` writes, its last NUL included
pub unparsed : List ℕ → List ℕ
unfolding no_blanks
unparsed input =
    no_blanks (take 8 input)
    ++ (if byte_of input 8 == b' ' then [] else b'.' ∷ no_blanks (take 3 (drop 8 input)))
    ++ (0 ∷ [])

pub fat16_unparse_name : List ℕ → List ℕ → List ℕ
unfolding unparsed
fat16_unparse_name input output = memcpy output (unparsed input) (length (unparsed input))

abbrev pub file_at : Fat → ℕ → FatFile
file_at fs i = get_or fs.files i zero_file

-- the first of the `n` files from index `i` on that is used and has the name, in any case
pub find_file : ℕ → ℕ → List ℕ → Fat → Option ℕ
find_file zero i name fs = none
find_file (suc n) i name fs =
    let rest = find_file n (i + 1) name fs in
    if (file_at fs i).used && is_zero (strcasecmp (file_at fs i).name name) then some i else rest

abbrev pub cluster_size : Fat → ℕ
cluster_size fs = fs.bpb.sectors_per_cluster * 512

-- `(fs.bpb.root_entries * 32 + 511) / 512`
abbrev pub root_sectors : Fat → ℕ
root_sectors fs = (fs.bpb.root_entries * 32 + 511) / 512
