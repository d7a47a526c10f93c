-- ===== src/Tools/Editor/SaveOpen.antt =====
-- `editor_save` and `editor_open` with the tmpfs between them.
use dosfs.Prelude.{
  take_front, ℕ, suc, ◌+◌, ◌-◌, ◌<◌, ◌≤◌, ◌≡◌, ◌≢◌, ◌∙◌, ◌⊎◌, ap, refl, inr, true, false, none,
  some, List, [], ◌∷◌, ◌++◌, ◌==◌, length, drop, replicate, pos, arith, min, length-append,
  take_all, length-replicate,
}
use dosfs.Fs.Tmpfs.{Tmpfs, tmpfs_delete, tmpfs_read}
use dosfs.Fs.Tmpfs.Valid.{IsValid}
use dosfs.Fs.Tmpfs.Updates.{contents, Updated, Updated-trans}
use dosfs.Fs.Tmpfs.Operations.{
  tmpfs_write-Updated, tmpfs_delete-Updated, tmpfs_delete_room, tmpfs_read_lem,
}
use dosfs.Tools.Editor.{Editor, collect, parse_from, editor_new, editor_save, editor_open}
use dosfs.Tools.Editor.RoundTrip.{
  AreLines, joined, last_of, collect-lines, parse_from-lines, opened,
}

last_byte : (l : List ℕ) (ls : List (List ℕ)) → 0 < length (last_of l ls) → 0 < length (joined l ls)
last_byte l [] h = h
last_byte l (m ∷ ms) h = omega (arith, length-append l (b'\n' ∷ joined m ms))

-- What `editor_save` does to a file system for an editor with the bytes `c`.
editor_save_lem :
    (e : Editor) (t : Tmpfs) (c : List ℕ)
    → IsValid t
    → 0 < length e.filename
    → length e.filename ≤ 63
    → (contents t e.filename ≢ none) ⊎ (t.file_count < 32)
    → collect e.line_count 0 e [] ≡ c
    → 0 < length c
    → length c ≤ 4096
    → (t' : Tmpfs) × (editor_save true e t ≡ some (pos 0, record e { modified = false }, t'))
      × Updated t e.filename (some c) t'
unfolding editor_save
editor_save_lem e t c v named short room x some_byte fits =
    let k : List ℕ = e.filename in
    let u = (tmpfs_delete k t).1 in
    let up = (tmpfs_delete-Updated t k v).0 in
    let (t', w, up2) =
      tmpfs_write-Updated u k c (length c) up.valid short (omega arith)
        (inr (tmpfs_delete_room t k v room)) in
    let n : min 4096 (length c) ≡ length c = omega arith in
    let all : Updated u k (some c) t' = rw (n, take_all (length c) c (omega arith)) at up2 in
    let a : (length k == 0) ≡ false = ground arith in
    let b : (length c == 0) ≡ false = ground arith in
    (t', rw (x, a, b, w) refl, Updated-trans t u t' k none (some c) up all)

-- a file that the buffer holds
tmpfs_read_file :
    (k buf : List ℕ) (t : Tmpfs) (c : List ℕ)
    → IsValid t
    → contents t k ≡ some c
    → length c < 4096
    → length buf ≡ 4096
    → tmpfs_read k buf 4095 t ≡ (pos (length c), c ++ drop (length c) buf)
tmpfs_read_file k buf t c v here fits room =
    let n : min 4095 (length c) ≡ length c = omega arith in
    tmpfs_read_lem t k buf 4095 v (omega arith) ∙ rw (here, n, take_all 4095 c (omega arith)) refl

editor_open_lem :
    (k : List ℕ) (t : Tmpfs) (c : List ℕ)
    → IsValid t
    → contents t k ≡ some c
    → 0 < length c
    → length c < 4096
    → ((editor_open true k t).lines ≡ (parse_from c 0 [] editor_new.lines).0)
      × ((editor_open true k t).line_count ≡ (parse_from c 0 [] editor_new.lines).1)
unfolding editor_open
editor_open_lem k t c v here some_byte fits =
    let buf : List ℕ = replicate 4096 0 in
    let got = tmpfs_read_file k buf t c v here fits (length-replicate {A = ℕ} 4096 0) in
    let r0 : (tmpfs_read k buf 4095 t).0 ≡ pos (length c) = ap (λ p. p.0) got in
    let r1 : (tmpfs_read k buf 4095 t).1 ≡ c ++ drop (length c) buf = ap (λ p. p.1) got in
    let some_bytes : (length c == 0) ≡ false = ground arith in
    rw (r0, r1, take_front c (drop (length c) buf), some_bytes) (refl, refl)

-- In a well-formed table with room for the file, a buffer of 1 to 256 lines of fewer than 80 bytes,
-- with a file name of 1 to 63 bytes, whose text has fewer than 4096 bytes and whose last line is not
-- empty, is saved and opened again with the same lines, when `kmalloc` gives the memory for both.
pub editor_open-save :
    (l : List ℕ) (ls rest : List (List ℕ)) (e : Editor) (t : Tmpfs)
    → AreLines (l ∷ ls)
    → e.lines ≡ l ∷ (ls ++ rest)
    → e.line_count ≡ suc (length ls)
    → length ls < 256
    → 0 < length (last_of l ls)
    → length (joined l ls) < 4096
    → IsValid t
    → 0 < length e.filename
    → length e.filename ≤ 63
    → (contents t e.filename ≢ none) ⊎ (t.file_count < 32)
    → (t' : Tmpfs) × (editor_save true e t ≡ some (pos 0, record e { modified = false }, t'))
      × ((editor_open true e.filename t').lines ≡ (l ∷ ls) ++ replicate (255 - length ls) [])
      × ((editor_open true e.filename t').line_count ≡ e.line_count)
unfolding editor_new
editor_open-save l ls rest e t p x n few last fits v named short room =
    let start : collect (suc (length ls)) 0 e [] ≡ joined l ls =
      collect-lines l ls [] rest e [] p x (omega (arith, n)) (omega arith) (omega arith) in
    let bytes : collect e.line_count 0 e [] ≡ joined l ls = ap (λ j. collect j 0 e []) n ∙ start in
    let (t', saved, up) =
      editor_save_lem e t (joined l ls) v named short room bytes (last_byte l ls last)
        (omega arith) in
    let (opened_lines, opened_count) =
      editor_open_lem e.filename t' (joined l ls) up.valid up.here (last_byte l ls last) fits in
    let blank : suc (length ls) + (255 - length ls) ≡ 256 = omega arith in
    let fresh : editor_new.lines ≡ replicate (suc (length ls) + (255 - length ls)) [] =
      rw (editor_new, blank) refl in
    let back : parse_from (joined l ls) 0 [] editor_new.lines
        ≡ opened [] (l ∷ ls) (replicate (255 - length ls) []) =
      rw fresh (parse_from-lines l ls [] (255 - length ls) p (omega arith) last) in
    (
      t',
      saved,
      opened_lines ∙ ap (λ q. q.0) back,
      opened_count ∙ ap (λ q. q.1) back ∙ omega (arith, n),
    )
