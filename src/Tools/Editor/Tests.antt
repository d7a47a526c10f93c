-- ===== src/Tools/Editor/Tests.antt =====
-- The editor on small buffers.
use dosfs.Prelude.{◌≡◌, refl, inr, true, false, some, [], ◌∷◌, replicate, pos, arith}
use dosfs.Fs.Tmpfs.{Tmpfs, tmpfs_init}
use dosfs.Fs.Tmpfs.Valid.{tmpfs_init-IsValid}
use dosfs.Tools.Editor.{
  Editor, editor_new, editor_newline, shift_down, act, scroll, editor_save, editor_open,
}
use dosfs.Tools.Editor.Invariant.{IsValid}
use dosfs.Tools.Editor.Keys.{act-IsValid, editor_new-IsValid}
use dosfs.Tools.Editor.SaveOpen.{editor_open-save}

-- the lines `h`, `i` of the file `f`
abbrev two_lines : Editor
two_lines = record editor_new {
  lines = (b'h' ∷ []) ∷ (b'i' ∷ []) ∷ replicate 254 [];
  line_count = 2;
  filename = b'f' ∷ [];
}

editor_open-save_example :
    (t' : Tmpfs) × (editor_save true two_lines tmpfs_init
      ≡ some (pos 0, record two_lines { modified = false }, t'))
    × ((editor_open true (b'f' ∷ []) t').lines ≡ (b'h' ∷ []) ∷ (b'i' ∷ []) ∷ replicate 254 [])
    × ((editor_open true (b'f' ∷ []) t').line_count ≡ 2)
editor_open-save_example =
    editor_open-save (b'h' ∷ []) ((b'i' ∷ []) ∷ []) (replicate 254 []) two_lines tmpfs_init
      ((ground arith, tt), ground arith, ((ground arith, tt), ground arith, tt)) refl refl
      (ground arith) (ground arith) (ground arith) tmpfs_init-IsValid (ground arith) (ground arith)
      (inr (ground arith))

act-IsValid_example : IsValid (scroll (act b'a' editor_new))
act-IsValid_example = act-IsValid b'a' editor_new editor_new-IsValid

newline_typed : (act b'\n' two_lines).line_count ≡ 3
unfolding act editor_newline shift_down
newline_typed = refl
