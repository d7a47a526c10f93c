-- ===== src/Fs/Tmpfs.antt =====
-- src/fs/tmpfs.c: 32 files of at most 4096 bytes in memory.
-- The field `data` is `content` here, as that word is taken. Pointers into `files` are indexes and NULL is `none`. `file_count` is a signed 32-bit pattern.
-- `tmpfs_list` and the messages of the others only print.
pub mod Updates
mod Lookup
pub mod Valid
pub mod Operations
mod Tests
use dosfs.Prelude.{
  ℕ, suc, ◌+◌, ◌-◌, ◌%◌, ◌^◌, Bool, true, false, not, ◌&&◌, Option, none, some, List, [], ◌∷◌, ltb,
  leb, ◌==◌, if◌then◌else◌, get_or, set, replicate, ℤ, is_zero, pos, negsuc,
}
use dosfs.Libc.{memset, memcpy, strcmp, strncpy}

pub record File : Type 0 where
  pub name : List ℕ
  pub size : ℕ
  pub used : Bool
  pub content : List ℕ

pub record Tmpfs : Type 0 where
  pub files : List File
  pub file_count : ℕ

pub zero_file : File
zero_file = record { name = replicate 64 0; size = 0; used = false; content = replicate 4096 0 }

abbrev pub tmpfs_init : Tmpfs
tmpfs_init = record { files = replicate 32 zero_file; file_count = 0 }

-- `files[i].used && strcmp(files[i].name, name) == 0`
pub has_name : File → List ℕ → Bool
has_name f name = f.used && is_zero (strcmp f.name name)

-- the index of the first file that has the name
pub find_file : List File → List ℕ → Option ℕ
find_file [] name = none
find_file (f ∷ fs) name =
    let rest = find_file fs name in
    if has_name f name then some 0 else elim rest [ none ↦ none | some i ↦ some (suc i) ]

-- the index of the first file that is not in use
pub find_unused : List File → Option ℕ
find_unused [] = none
find_unused (f ∷ fs) =
    let rest = find_unused fs in
    if f.used then elim rest [ none ↦ none | some i ↦ some (suc i) ] else some 0

abbrev pub file_at : Tmpfs → ℕ → File
file_at t i = get_or t.files i zero_file

-- the file that `tmpfs_create` makes of an unused one
pub fresh_file : File → List ℕ → File
fresh_file f name = record {
  name = set (strncpy f.name name 63) 63 0;
  size = 0;
  used = true;
  content = memset f.content 0 4096;
}

pub tmpfs_create : List ℕ → Tmpfs → ℤ × Tmpfs
unfolding find_file find_unused fresh_file
tmpfs_create name t = elim (find_file t.files name) [
  | some i ↦ (pos 0, t)
  | none ↦
      if leb 32 t.file_count && ltb t.file_count (2 ^ 31)
      then (negsuc 0, t)
      else elim (find_unused t.files) [
        | none ↦ (negsuc 0, t)
        | some i ↦ (
          pos 0,
          record {
            files = set t.files i (fresh_file (file_at t i) name);
            file_count = (t.file_count + 1) % 2 ^ 32;
          },
        )
      ]
]

abbrev pub data_size : ℕ
data_size = 4096

-- the end of `tmpfs_write`, at the file that it has found
pub fill_file : ℕ → List ℕ → ℕ → Tmpfs → ℤ × Tmpfs
fill_file i bytes size t =
    let size' = if ltb data_size size then data_size else size in
    let f = file_at t i in
    (
      pos size',
      record t {
        files = set t.files i (record f { content = memcpy f.content bytes size'; size = size' });
      },
    )

-- `none` when the source writes through the NULL that the second `find_file` returns.
pub tmpfs_write : List ℕ → List ℕ → ℕ → Tmpfs → Option (ℤ × Tmpfs)
unfolding tmpfs_create fill_file
tmpfs_write name bytes size t = elim (find_file t.files name) [
  | some i ↦ some (fill_file i bytes size t)
  | none ↦
      let (r, t') = tmpfs_create name t in
      if not (is_zero r) then some (negsuc 0, t') else elim (find_file t'.files name) [
        | some i ↦ some (fill_file i bytes size t')
        | none ↦ none
      ]
]

-- The result is the returned number and the buffer.
pub tmpfs_read : List ℕ → List ℕ → ℕ → Tmpfs → ℤ × List ℕ
unfolding find_file
tmpfs_read name buf max_size t = elim (find_file t.files name) [
  | none ↦ (negsuc 0, buf)
  | some i ↦
      let f = file_at t i in
      let len = if ltb max_size f.size then max_size else f.size in
      (pos len, memcpy buf f.content len)
]

pub tmpfs_delete : List ℕ → Tmpfs → ℤ × Tmpfs
unfolding find_file
tmpfs_delete name t = elim (find_file t.files name) [
  | none ↦ (negsuc 0, t)
  | some i ↦ (
    pos 0,
    record {
      files = set t.files i (record (file_at t i) { used = false });
      file_count = (t.file_count + 2 ^ 32 - 1) % 2 ^ 32;
    },
  )
]

pub tmpfs_exists : List ℕ → Tmpfs → ℤ
unfolding find_file
tmpfs_exists name t = elim (find_file t.files name) [ none ↦ pos 0 | some i ↦ pos 1 ]
