-- ===== src/Shell/Files/Tests.antt =====
-- The commands on files at a table with one file.
use dosfs.Prelude.{
  ℕ, ◌≡◌, ◌<◌, ap, ◌≢◌, refl, inl, inr, none, some, List, [], ◌∷◌, arith, length, take, replicate,
  length-replicate, min,
}
use dosfs.Libc.Text.{text}
use dosfs.Libc.Number.{skip_blanks}
use dosfs.Tools.CpuSim.{word}
use dosfs.Fs.Tmpfs.{Tmpfs, tmpfs_init}
use dosfs.Fs.Tmpfs.Valid.{IsValid, tmpfs_init-IsValid}
use dosfs.Fs.Tmpfs.Updates.{contents, Updated}
use dosfs.Fs.Tmpfs.Operations.{tmpfs_write-Updated, count_of, tmpfs_write-count}
use dosfs.Shell.Files.{moved, cmd_mv, two_names}
use dosfs.Shell.Files.Copy.{cmd_mv-moves, cmd_mv-loses}

abbrev a : List ℕ
a = b'a' ∷ []

abbrev b : List ℕ
b = b'b' ∷ []

abbrev bytes : List ℕ
bytes = take (min 4096 3) (1 ∷ 2 ∷ 3 ∷ [])

-- A table in which the first name holds three bytes.
abbrev one_file : Tmpfs
one_file =
    (tmpfs_write-Updated tmpfs_init a (1 ∷ 2 ∷ 3 ∷ []) 3 tmpfs_init-IsValid (omega arith)
      (omega arith) (inr (omega arith))).0

one_file-Updated : Updated tmpfs_init a (some bytes) one_file
one_file-Updated =
    (tmpfs_write-Updated tmpfs_init a (1 ∷ 2 ∷ 3 ∷ []) 3 tmpfs_init-IsValid (omega arith)
      (omega arith) (inr (omega arith))).2

abbrev buffer : List ℕ
buffer = replicate 4096 0

buffer_size : length buffer ≡ 4096
buffer_size = length-replicate {A = ℕ} 4096 0

-- ` a b`, ` a a` and ` b a`
abbrev a_to_b : List ℕ
a_to_b = b' ' ∷ b'a' ∷ b' ' ∷ b'b' ∷ []

abbrev a_to_a : List ℕ
a_to_a = b' ' ∷ b'a' ∷ b' ' ∷ b'a' ∷ []

names : two_names a_to_b ≡ some (a, b)
unfolding two_names skip_blanks word
names = refl

same_names : two_names a_to_a ≡ some (a, a)
unfolding two_names skip_blanks word
same_names = refl

different : text a ≢ text b
unfolding text
different e = ground arith

spare : one_file.file_count < 32
spare =
    let wrote =
      tmpfs_write-Updated tmpfs_init a (1 ∷ 2 ∷ 3 ∷ []) 3 tmpfs_init-IsValid (omega arith)
        (omega arith) (inr (omega arith)) in
    let same = ap count_of wrote.1 in
    omega (arith, same, tmpfs_write-count tmpfs_init a (1 ∷ 2 ∷ 3 ∷ []) 3)

cmd_mv-moves_example :
    (t' : Tmpfs) × (cmd_mv (some buffer) a_to_b one_file ≡ some (moved a b, t'))
    × IsValid t'
    × (contents t' b ≡ some bytes)
    × (contents t' a ≡ none)
    × ((n : List ℕ) → text n ≢ text a → text n ≢ text b → contents t' n ≡ contents one_file n)
cmd_mv-moves_example =
    cmd_mv-moves one_file buffer a_to_b a b bytes one_file-Updated.valid buffer_size names
      one_file-Updated.here different (inr spare)

cmd_mv-loses_example :
    (t' : Tmpfs) × (cmd_mv (some buffer) a_to_a one_file ≡ some (moved a a, t'))
    × (contents t' a ≡ none)
    × (contents t' a ≡ none)
cmd_mv-loses_example =
    cmd_mv-loses one_file buffer a_to_a a a bytes one_file-Updated.valid buffer_size same_names
      one_file-Updated.here (inl refl)
