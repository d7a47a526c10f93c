-- ===== src/Shell/Files.antt =====
-- src/shell/shell.c: the commands on the files in memory.
-- A command's arguments are what stands behind its name. What it prints is the message that it ends
-- with. `buf` is what `kmalloc` returns, `none` for NULL; the command frees it again. A command has no
-- result where `tmpfs_write` writes through NULL.
mod Copy
mod Tests
use dosfs.Prelude.{
  ℕ, ◌+◌, Bool, true, false, not, ◌&&◌, ◌||◌, Option, none, some, List, [], ◌∷◌, ◌==◌,
  if◌then◌else◌, ℤ, is_zero, pos, negsuc, length, take, set,
}
use dosfs.Libc.Number.{skip_blanks}
use dosfs.Tools.CpuSim.{word}
use dosfs.Fs.Tmpfs.{Tmpfs, tmpfs_create, tmpfs_write, tmpfs_read, tmpfs_delete}

pub data Message : Type 0 where
  usage out_of_memory created not_created deleted : Message
  wrote : ℕ → Message
  not_found : List ℕ → Message
  shown : List ℕ → Message
  copied : List ℕ → List ℕ → ℕ → Message
  moved : List ℕ → List ℕ → Message

abbrev pub is_empty : List ℕ → Bool
is_empty [] = true
is_empty (c ∷ s) = false

-- `while (*args && *args != ' ' && i < 63) name[i++] = *args++;`
abbrev pub name_word : List ℕ → List ℕ × List ℕ
name_word args = word (λ b. b == b' ') 63 args

pub cmd_touch : List ℕ → Tmpfs → Message × Tmpfs
cmd_touch args t =
    let name = skip_blanks args in
    let (r, t') = tmpfs_create name t in
    if is_empty name then (usage, t) else ((if is_zero r then created else not_created), t')

pub cmd_write_file : List ℕ → Tmpfs → Option (Message × Tmpfs)
cmd_write_file args t =
    let (name, rest) = name_word (skip_blanks args) in
    let text = skip_blanks rest in
    let written : Option (Message × Tmpfs) = elim (tmpfs_write name text (length text) t) [
      | none ↦ none
      | some (r, t') ↦ some (wrote (length text), t')
    ] in
    if is_empty name || is_empty text then some (usage, t) else written

pub cmd_cat : Option (List ℕ) → List ℕ → Tmpfs → Message
cmd_cat buf args t =
    let name = skip_blanks args in
    let read : Message = elim buf [
      | none ↦ out_of_memory
      | some b ↦
          let (r, b') = tmpfs_read name b 4096 t in
          elim r [ pos len ↦ shown (take len b') | negsuc n ↦ not_found name ]
    ] in
    if is_empty name then usage else read

pub cmd_rm : List ℕ → Tmpfs → Message × Tmpfs
cmd_rm args t =
    let name = skip_blanks args in
    let (r, t') = tmpfs_delete name t in
    if is_empty name then (usage, t) else ((if is_zero r then deleted else not_found name), t')

-- the two names of `cp` and `mv`
pub two_names : List ℕ → Option (List ℕ × List ℕ)
two_names args =
    let (src, rest) = name_word (skip_blanks args) in
    let more = skip_blanks rest in
    if is_empty src || is_empty more then none else some (src, (name_word more).0)

-- The rest of `cmd_cp`: the result of `tmpfs_write` is not looked at.
pub copy_file : List ℕ → List ℕ → List ℕ → Tmpfs → Option (Message × Tmpfs)
copy_file buf src dst t =
    let (r, b) = tmpfs_read src buf 4096 t in
    elim r [
      | negsuc n ↦ some (not_found src, t)
      | pos len ↦ elim (tmpfs_write dst b len t) [
        | none ↦ none
        | some (r', t') ↦ some (copied src dst len, t')
      ]
    ]

-- The rest of `cmd_mv`: the source is deleted whatever `tmpfs_write` returned.
pub move_file : List ℕ → List ℕ → List ℕ → Tmpfs → Option (Message × Tmpfs)
move_file buf src dst t =
    let (r, b) = tmpfs_read src buf 4096 t in
    elim r [
      | negsuc n ↦ some (not_found src, t)
      | pos len ↦ elim (tmpfs_write dst b len t) [
        | none ↦ none
        | some (r', t') ↦ some (moved src dst, (tmpfs_delete src t').1)
      ]
    ]

pub cmd_cp : Option (List ℕ) → List ℕ → Tmpfs → Option (Message × Tmpfs)
unfolding two_names copy_file
cmd_cp buf args t = elim (two_names args) [
  | none ↦ some (usage, t)
  | some (src, dst) ↦ elim buf [ none ↦ some (out_of_memory, t) | some b ↦ copy_file b src dst t ]
]

pub cmd_mv : Option (List ℕ) → List ℕ → Tmpfs → Option (Message × Tmpfs)
unfolding two_names move_file
cmd_mv buf args t = elim (two_names args) [
  | none ↦ some (usage, t)
  | some (src, dst) ↦ elim buf [ none ↦ some (out_of_memory, t) | some b ↦ move_file b src dst t ]
]
