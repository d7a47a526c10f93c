-- ===== src/Shell/Files/Copy.antt =====
-- What copying and moving a file do.
use dosfs.Prelude.{
  take_front, Bool-cases, ℕ, ◌<◌, ◌≤◌, ◌≡◌, ◌≢◌, ◌∙◌, ◌⊎◌, sym, ap, refl, inl, inr, ◌||◌, Option,
  none, some, List, [], ◌++◌, ◌==◌, length, length-append, take, drop, pos, arith, min, take_all,
}
use dosfs.Libc.Text.{text}
use dosfs.Fs.Tmpfs.{Tmpfs, tmpfs_delete, tmpfs_write, tmpfs_read}
use dosfs.Fs.Tmpfs.Valid.{IsValid}
use dosfs.Fs.Tmpfs.Updates.{contents, Updated}
use dosfs.Fs.Tmpfs.Operations.{
  tmpfs_write-Updated, tmpfs_delete-Updated, tmpfs_read_lem, contents-bound, tmpfs_write_full,
}
use dosfs.Libc.Number.{skip_blanks}
use dosfs.Tools.CpuSim.Words.{word-length}
use dosfs.Shell.Files.{
  is_empty, name_word, copied, moved, copy_file, move_file, cmd_cp, cmd_mv, two_names,
}

-- a file that the buffer of 4096 bytes holds
read_all :
    (k buf : List ℕ) (t : Tmpfs) (c : List ℕ)
    → IsValid t
    → contents t k ≡ some c
    → length buf ≡ 4096
    → tmpfs_read k buf 4096 t ≡ (pos (length c), c ++ drop (length c) buf)
read_all k buf t c v here room =
    let short = contents-bound t k c v here in
    let n : min 4096 (length c) ≡ length c = omega (arith, short) in
    tmpfs_read_lem t k buf 4096 v (omega (arith, room)) ∙ rw (here, n, take_all 4096 c short) refl

-- the write of `cp` and of `mv`
copy_written :
    (t : Tmpfs) (buf dst c : List ℕ)
    → IsValid t
    → length c ≤ 4096
    → length dst ≤ 63
    → (contents t dst ≢ none) ⊎ (t.file_count < 32)
    → (t' : Tmpfs) × (tmpfs_write dst (c ++ drop (length c) buf) (length c) t
        ≡ some (pos (length c), t'))
      × Updated t dst (some c) t'
copy_written t buf dst c v short named room =
    let b : List ℕ = c ++ drop (length c) buf in
    let enough : length c ≤ length b = omega (arith, length-append c (drop (length c) buf)) in
    let n : min 4096 (length c) ≡ length c = omega (arith, short) in
    let (t', e, up) = tmpfs_write-Updated t dst b (length c) v named enough room in
    let held : take (min 4096 (length c)) b ≡ c = rw (n, take_front c (drop (length c) buf)) refl in
    (
      t',
      e ∙ ap (λ x. some (pos x, t')) n,
      record { valid = up.valid; here = up.here ∙ ap some held; elsewhere = up.elsewhere },
    )

-- the second of the names, when there are some
abbrev second : Option (List ℕ × List ℕ) → List ℕ
second none = []
second (some (src, dst)) = dst

-- The second name has at most 63 bytes.
two_names-short : (args src dst : List ℕ) → two_names args ≡ some (src, dst) → length dst ≤ 63
unfolding two_names
two_names-short args src dst e =
    let first = name_word (skip_blanks args) in
    let more = skip_blanks first.1 in
    let w : List ℕ = (name_word more).0 in
    elim (Bool-cases (is_empty first.0 || is_empty more)) [
      | inl stop ↦
          let refused : two_names args ≡ none = rw (two_names, stop) refl in
          absurd (cc (e, refused))
      | inr go ↦
          let found : two_names args ≡ some (first.0, w) = rw (two_names, go) refl in
          let same : dst ≡ w = ap second (sym e ∙ found) in
          rw same (word-length (λ b. b == b' ') 63 more)
    ]

-- In a well-formed table, `cp` of a file puts what it holds under the second name, whatever that
-- held, and leaves all else: the second name is held or there is a slot to spare, and `kmalloc` has
-- 4096 bytes.
pub cmd_cp-Updated :
    (t : Tmpfs) (buf args src dst c : List ℕ)
    → IsValid t
    → length buf ≡ 4096
    → two_names args ≡ some (src, dst)
    → contents t src ≡ some c
    → (contents t dst ≢ none) ⊎ (t.file_count < 32)
    → (t' : Tmpfs) × (cmd_cp (some buf) args t ≡ some (copied src dst (length c), t'))
      × Updated t dst (some c) t'
unfolding cmd_cp copy_file
cmd_cp-Updated t buf args src dst c v size names held room =
    let named = two_names-short args src dst names in
    let read = read_all src buf t c v held size in
    let (t', e, up) = copy_written t buf dst c v (contents-bound t src c v held) named room in
    (t', rw (cmd_cp, names, copy_file, read, read, e) refl, up)

-- In a well-formed table, `mv` of a file to another name puts what it holds under that name,
-- whatever that held, frees the first name and leaves all else: the second name
-- is held or there is a slot to spare, and `kmalloc` has 4096 bytes.
pub cmd_mv-moves :
    (t : Tmpfs) (buf args src dst c : List ℕ)
    → IsValid t
    → length buf ≡ 4096
    → two_names args ≡ some (src, dst)
    → contents t src ≡ some c
    → text src ≢ text dst
    → (contents t dst ≢ none) ⊎ (t.file_count < 32)
    → (t' : Tmpfs) × (cmd_mv (some buf) args t ≡ some (moved src dst, t'))
      × IsValid t'
      × (contents t' dst ≡ some c)
      × (contents t' src ≡ none)
      × ((n : List ℕ) → text n ≢ text src → text n ≢ text dst → contents t' n ≡ contents t n)
unfolding cmd_mv move_file
cmd_mv-moves t buf args src dst c v size names held other room =
    let named = two_names-short args src dst names in
    let read = read_all src buf t c v held size in
    let (u, e, up) = copy_written t buf dst c v (contents-bound t src c v held) named room in
    let gone = (tmpfs_delete-Updated u src up.valid).0 in
    (
      (tmpfs_delete src u).1,
      rw (cmd_mv, names, move_file, read, read, e) refl,
      gone.valid,
      gone.elsewhere dst (λ q. other (sym q)) ∙ up.here,
      gone.here,
      λ n not_src not_dst. gone.elsewhere n not_src ∙ up.elsewhere n not_dst,
    )

-- In a well-formed table, `mv` of a file to its own name, or in a full table to a free name, loses
-- it: it says that it has moved the file, and neither name holds anything; `kmalloc` has 4096 bytes.
pub cmd_mv-loses :
    (t : Tmpfs) (buf args src dst c : List ℕ)
    → IsValid t
    → length buf ≡ 4096
    → two_names args ≡ some (src, dst)
    → contents t src ≡ some c
    → (src ≡ dst) ⊎ ((text src ≢ text dst) × (contents t dst ≡ none) × (t.file_count ≡ 32))
    → (t' : Tmpfs) × (cmd_mv (some buf) args t ≡ some (moved src dst, t'))
      × (contents t' src ≡ none)
      × (contents t' dst ≡ none)
unfolding cmd_mv move_file
cmd_mv-loses t buf args src dst c v size names held lost =
    let read = read_all src buf t c v held size in
    let short = contents-bound t src c v held in
    elim lost [
      | inl same ↦
          let here : contents t dst ≡ some c = ap (contents t) (sym same) ∙ held in
          let room : (contents t dst ≢ none) ⊎ (t.file_count < 32) =
            inl (λ q. absurd (cc (here, q))) in
          let (u, e, up) =
            copy_written t buf dst c v short (two_names-short args src dst names) room in
          let gone = (tmpfs_delete-Updated u src up.valid).0 in
          (
            (tmpfs_delete src u).1,
            rw (cmd_mv, names, move_file, read, read, e) refl,
            gone.here,
            ap (contents (tmpfs_delete src u).1) (sym same) ∙ gone.here,
          )
      | inr (other, free, full) ↦
          let e = tmpfs_write_full t dst (c ++ drop (length c) buf) (length c) v free full in
          let gone = (tmpfs_delete-Updated t src v).0 in
          (
            (tmpfs_delete src t).1,
            rw (cmd_mv, names, move_file, read, read, e) refl,
            gone.here,
            gone.elsewhere dst (λ q. other (sym q)) ∙ free,
          )
    ]
