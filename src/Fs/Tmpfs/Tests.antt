-- ===== src/Fs/Tmpfs/Tests.antt =====
-- The operations of tmpfs at small tables.
use dosfs.Prelude.{
  ℕ, zero, suc, ◌≡◌, inr, none, some, List, [], ◌∷◌, ◌++◌, arith, length, take, drop, replicate,
  min, pos, negsuc,
}
use dosfs.Libc.Text.{IsText}
use dosfs.Fs.Tmpfs.{Tmpfs, tmpfs_init, tmpfs_write, tmpfs_read, tmpfs_delete}
use dosfs.Fs.Tmpfs.Valid.{IsValid, tmpfs_init-IsValid}
use dosfs.Fs.Tmpfs.Updates.{contents, Updated, tmpfs_init-contents}
use dosfs.Fs.Tmpfs.Operations.{
  tmpfs_write-Updated, tmpfs_write_long, tmpfs_read_lem, tmpfs_delete-Updated,
}

abbrev name : List ℕ
name = b'a' ∷ b'b' ∷ []

abbrev long_name : List ℕ
long_name = replicate 64 b'x'

x-IsText : (n : ℕ) → IsText (replicate n b'x')
x-IsText zero = tt
x-IsText (suc n) = (λ e. ground arith, x-IsText n)

-- The first table, with one file written.
abbrev written : Tmpfs
written =
    (tmpfs_write-Updated tmpfs_init name (1 ∷ 2 ∷ 3 ∷ []) 3 tmpfs_init-IsValid (omega arith)
      (omega arith) (inr (omega arith))).0

written-IsValid : IsValid written
written-IsValid =
    (tmpfs_write-Updated tmpfs_init name (1 ∷ 2 ∷ 3 ∷ []) 3 tmpfs_init-IsValid (omega arith)
      (omega arith) (inr (omega arith))).2.valid

tmpfs_write-Updated_example :
    (t' : Tmpfs) × (tmpfs_write name (1 ∷ 2 ∷ 3 ∷ []) 3 tmpfs_init ≡ some (pos (min 4096 3), t'))
    × Updated tmpfs_init name (some (take (min 4096 3) (1 ∷ 2 ∷ 3 ∷ []))) t'
tmpfs_write-Updated_example =
    tmpfs_write-Updated tmpfs_init name (1 ∷ 2 ∷ 3 ∷ []) 3 tmpfs_init-IsValid (omega arith)
      (omega arith) (inr (omega arith))

tmpfs_write_long_example : tmpfs_write long_name (1 ∷ []) 1 tmpfs_init ≡ none
tmpfs_write_long_example =
    tmpfs_write_long tmpfs_init long_name (1 ∷ []) 1 tmpfs_init-IsValid (x-IsText 64) (omega arith)
      (tmpfs_init-contents long_name) (omega arith)

tmpfs_read_lem_example : tmpfs_read name (replicate 5 0) 2 written ≡ elim (contents written name) [
  | none ↦ (negsuc 0, replicate 5 0)
  | some c ↦ (pos (min 2 (length c)), take 2 c ++ drop (min 2 (length c)) (replicate 5 0))
]
tmpfs_read_lem_example = tmpfs_read_lem written name (replicate 5 0) 2 written-IsValid (omega arith)

tmpfs_delete-Updated_example :
    Updated written name none (tmpfs_delete name written).1
    × ((tmpfs_delete name written).0
        ≡ elim (contents written name) [ none ↦ negsuc 0 | some c ↦ pos 0 ])
tmpfs_delete-Updated_example = tmpfs_delete-Updated written name written-IsValid
