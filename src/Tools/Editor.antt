-- ===== src/Tools/Editor.antt =====
-- src/tools/editor.c: the text editor.
-- A line buffer of 80 bytes is the text that it holds, a list of at most 79 bytes without its NUL;
-- `strlen` of it is the list's length. A key is its byte. Drawing is left out.
mod SaveOpen
mod Invariant
mod Keys
mod RoundTrip
mod Tests
use dosfs.Prelude.{
  ℕ, zero, suc, ◌+◌, ◌-◌, ◌*◌, Bool, true, false, not, ◌&&◌, ◌||◌, Option, none, some, List, [],
  ◌∷◌, ◌++◌, ltb, leb, ◌==◌, if◌then◌else◌, length, get_or, set, take, drop, replicate, ℤ, pos,
  negsuc,
}
use dosfs.Libc.{strncpy}
use dosfs.Libc.Text.{text}
use dosfs.Fs.Tmpfs.{Tmpfs, tmpfs_delete, tmpfs_write, tmpfs_read}

pub record Editor : Type 0 where
  pub lines : List (List ℕ)
  pub line_count : ℕ
  pub cursor_x : ℕ
  pub cursor_y : ℕ
  pub scroll_y : ℕ
  pub filename : List ℕ
  pub modified : Bool
  pub running : Bool

abbrev pub max_lines : ℕ
max_lines = 256

abbrev pub line_len : ℕ
line_len = 80

abbrev pub content_h : ℕ
content_h = 23

abbrev pub line_at : Editor → ℕ → List ℕ
line_at e i = get_or e.lines i []

-- the line under the cursor
abbrev pub current : Editor → List ℕ
current e = line_at e e.cursor_y

abbrev pub put_line : Editor → ℕ → List ℕ → Editor
put_line e i l = record e { lines = set e.lines i l }

-- `editor_insert_char` from the line's length on: the loop moves what stands from the cursor on one
-- place to the right.
pub insert_in_line : ℕ → Editor → Editor
insert_in_line c e =
    let line = current e in
    let x = if ltb (length line) e.cursor_x then length line else e.cursor_x in
    if leb (line_len - 1) (length line)
    then e
    else record (put_line e e.cursor_y (take x line ++ c ∷ drop x line)) {
      cursor_x = x + 1;
      modified = true;
    }

pub editor_insert_char : ℕ → Editor → Editor
editor_insert_char c e =
    if ltb e.cursor_y e.line_count
    then insert_in_line c e
    else if leb max_lines e.line_count
    then e
    else insert_in_line c (record (put_line e e.line_count []) { line_count = e.line_count + 1 })

-- `for (i…) strcpy(ed.lines[i], ed.lines[i + 1]);`, `n` rounds from `i` on
pub shift_up : ℕ → ℕ → List (List ℕ) → List (List ℕ)
shift_up zero i ls = ls
shift_up (suc n) i ls = shift_up n (i + 1) (set ls i (get_or ls (i + 1) []))

pub editor_delete_char : Editor → Editor
editor_delete_char e =
    let line = current e in
    let above = line_at e (e.cursor_y - 1) in
    if ltb 0 e.cursor_x
    then record (put_line e e.cursor_y (take (e.cursor_x - 1) line ++ drop e.cursor_x line)) {
      cursor_x = e.cursor_x - 1;
      modified = true;
    }
    else if (e.cursor_y == 0) || leb line_len (length above + length line)
    then e
    else record e {
      lines =
          shift_up (e.line_count - 1 - e.cursor_y) e.cursor_y
            (set e.lines (e.cursor_y - 1) (above ++ line));
      line_count = e.line_count - 1;
      cursor_y = e.cursor_y - 1;
      cursor_x = length above;
      modified = true;
    }

-- `for (i…; i--) strcpy(ed.lines[i], ed.lines[i - 1]);`, `n` rounds from `i` down
pub shift_down : ℕ → ℕ → List (List ℕ) → List (List ℕ)
shift_down zero i ls = ls
shift_down (suc n) i ls = shift_down n (i - 1) (set ls i (get_or ls (i - 1) []))

pub editor_newline : Editor → Editor
editor_newline e =
    let line = current e in
    let moved = shift_down (e.line_count - (e.cursor_y + 1)) e.line_count e.lines in
    if leb max_lines e.line_count then e else record e {
      lines =
          set (set moved (e.cursor_y + 1) (drop e.cursor_x line)) e.cursor_y (take e.cursor_x line);
      line_count = e.line_count + 1;
      cursor_y = e.cursor_y + 1;
      cursor_x = 0;
      modified = true;
    }

-- The loop of `editor_save`: `n` lines from `i` on, behind the bytes in the buffer.
pub collect : ℕ → ℕ → Editor → List ℕ → List ℕ
collect zero i e out = out
collect (suc n) i e out =
    let line = line_at e i in
    let rest =
      collect n (i + 1) e (out ++ line ++ (if ltb i (e.line_count - 1) then b'\n' ∷ [] else [])) in
    if ltb (line_len * max_lines) (length out + length line + 1) then out else rest

-- `memory` says whether `kmalloc` gives the buffer. The result is the number returned, the editor and
-- the file system; there is none when `tmpfs_write` writes through NULL.
pub editor_save : Bool → Editor → Tmpfs → Option (ℤ × Editor × Tmpfs)
editor_save memory e t =
    let bytes = collect e.line_count 0 e [] in
    let t' = (tmpfs_delete e.filename t).1 in
    let e' = record e { modified = false } in
    if (length e.filename == 0) || not memory
    then some (negsuc 0, e, t)
    else if length bytes == 0
    then some (pos 0, e', t')
    else elim (tmpfs_write e.filename bytes (length bytes) t') [
      | none ↦ none
      | some (r, t'') ↦ some (pos 0, e', t'')
    ]

-- What `editor_open` does behind its loop: the lines and their number.
pub finish : ℕ → List ℕ → List (List ℕ) → List (List ℕ) × ℕ
finish line so_far ls =
    if ltb 0 (length so_far) || (line == 0) then (set ls line so_far, line + 1) else (ls, line)

-- Its loop: what is left of the file, the line, what it holds so far, and the lines before it.
pub parse_from : List ℕ → ℕ → List ℕ → List (List ℕ) → List (List ℕ) × ℕ
parse_from [] line so_far ls = finish line so_far ls
parse_from (c ∷ file) line so_far ls =
    let broken = parse_from file (line + 1) [] (set ls line so_far) in
    let longer =
      parse_from file line (if ltb (length so_far) (line_len - 1) then so_far ++ c ∷ [] else so_far)
        ls in
    if leb max_lines line then finish line so_far ls else if c == b'\n' then broken else longer

-- `editor_new`
pub editor_new : Editor
editor_new = record {
  lines = replicate max_lines [];
  line_count = 1;
  cursor_x = 0;
  cursor_y = 0;
  scroll_y = 0;
  filename = [];
  modified = false;
  running = true;
}

pub editor_open : Bool → List ℕ → Tmpfs → Editor
editor_open memory filename t =
    let e = record editor_new { filename = text (strncpy (replicate 64 0) filename 63) } in
    let (r, buf) = tmpfs_read filename (replicate 4096 0) 4095 t in
    if not memory then e else elim r [
      | negsuc n ↦ e
      | pos len ↦
          let (ls, count) = parse_from (take len buf) 0 [] e.lines in
          if len == 0 then e else record e { lines = ls; line_count = count }
    ]

-- The cursor at column `x`, or at the end of a line that is shorter.
abbrev pub clamp_x : Editor → Editor
clamp_x e =
    if ltb (length (current e)) e.cursor_x then record e { cursor_x = length (current e) } else e

pub move_up : Editor → Editor
move_up e = if ltb 0 e.cursor_y then clamp_x (record e { cursor_y = e.cursor_y - 1 }) else e

pub move_down : Editor → Editor
move_down e =
    if ltb e.cursor_y (e.line_count - 1)
    then clamp_x (record e { cursor_y = e.cursor_y + 1 })
    else e

pub move_left : Editor → Editor
move_left e =
    if ltb 0 e.cursor_x
    then record e { cursor_x = e.cursor_x - 1 }
    else if ltb 0 e.cursor_y
    then record e { cursor_y = e.cursor_y - 1; cursor_x = length (line_at e (e.cursor_y - 1)) }
    else e

-- The byte under the cursor is NUL at the end of the line.
pub move_right : Editor → Editor
move_right e =
    if ltb e.cursor_x (length (current e))
    then record e { cursor_x = e.cursor_x + 1 }
    else if ltb e.cursor_y (e.line_count - 1)
    then record e { cursor_y = e.cursor_y + 1; cursor_x = 0 }
    else e

pub page_up : Editor → Editor
page_up e =
    let target = e.cursor_y - content_h in
    clamp_x (record e {
      cursor_y = target;
      scroll_y = if ltb content_h target then target - content_h + 1 else 0;
    })

pub page_down : Editor → Editor
page_down e =
    let target = e.cursor_y + content_h in
    let last = if leb e.line_count target then e.line_count - 1 else target in
    let stop = if ltb (e.line_count - 1) last then e.line_count - 1 else last in
    clamp_x (record e { cursor_y = stop; scroll_y = last })

-- One round of `editor_run` but for saving, up to the scrolling.
pub act : ℕ → Editor → Editor
act c e =
    if c == 0x11
    then record e { running = false }
    else if c == b'\n'
    then editor_newline e
    else if c == 8
    then editor_delete_char e
    else if c == 0xF1
    then move_up e
    else if c == 0xF2
    then move_down e
    else if c == 0xF3
    then move_left e
    else if c == 0xF4
    then move_right e
    else if c == 0xF5
    then record e { cursor_x = 0 }
    else if c == 0xF6
    then record e { cursor_x = length (current e) }
    else if c == 0xF7
    then page_up e
    else if c == 0xF8
    then page_down e
    else if leb 32 c && ltb c 127
    then editor_insert_char c e
    else e

pub scroll : Editor → Editor
scroll e =
    let above = if ltb e.cursor_y e.scroll_y then e.cursor_y else e.scroll_y in
    record e {
      scroll_y = if leb (above + content_h) e.cursor_y then e.cursor_y - content_h + 1 else above;
    }

-- One round of `editor_run` at the key `c`.
pub round : Bool → ℕ → Editor → Tmpfs → Option (Editor × Tmpfs)
round memory c e t =
    let plain = some (scroll (act c e), t) in
    if c == 0x13
    then elim (editor_save memory e t) [ none ↦ none | some (r, e', t') ↦ some (scroll e', t') ]
    else plain
