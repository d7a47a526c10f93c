-- ===== src/Shell/Line.antt =====
-- src/shell/shell.c: the line that is typed, and the lines before it.
-- `history_pos`, which nothing reads, is left out, and so is printing. A line is handed to
-- `process_command` as the text that its buffer holds.
mod Edit
mod History
mod Tests
use dosfs.Prelude.{
  ℕ, zero, suc, ◌+◌, ◌-◌, Bool, true, false, Option, none, some, List, [], ◌∷◌, ltb, ◌==◌,
  if◌then◌else◌, get_or, set, replicate,
}
use dosfs.Libc.{memset, strncpy}
use dosfs.Libc.Text.{text}

pub record Shell : Type 0 where
  pub cmd_buf : List ℕ
  pub cmd_len : ℕ
  pub history : List (List ℕ)
  pub history_count : ℕ
  pub shell_fg : ℕ
  pub shell_bg : ℕ

abbrev pub cmd_buf_size : ℕ
cmd_buf_size = 256

abbrev pub history_size : ℕ
history_size = 20

-- light grey on black
abbrev pub shell_init : Shell
shell_init = record {
  cmd_buf = replicate 256 0;
  cmd_len = 0;
  history = replicate 20 (replicate 256 0);
  history_count = 0;
  shell_fg = 7;
  shell_bg = 0;
}

-- a slot of the history with a line copied into it
pub copy_line : List ℕ → List ℕ → List ℕ
copy_line slot cmd = set (strncpy slot cmd 255) 255 0

-- Each line moves one slot down, and the new one takes the last slot.
pub shift_lines : List ℕ → List (List ℕ) → List (List ℕ)
unfolding copy_line
shift_lines cmd [] = []
shift_lines cmd (slot ∷ slots) =
    let rest = shift_lines cmd slots in
    elim slots [ [] ↦ copy_line slot cmd ∷ [] | next ∷ _ ↦ copy_line slot next ∷ rest ]

pub add_to_history : List ℕ → Shell → Shell
unfolding copy_line shift_lines
add_to_history cmd s =
    if ltb s.history_count history_size
    then record s {
      history = set s.history s.history_count (copy_line (get_or s.history s.history_count []) cmd);
      history_count = s.history_count + 1;
    }
    else record s { history = shift_lines cmd s.history }

-- One round of `shell_run`, for the key that `keyboard_getchar` returned: the line to process, if
-- there is one, and the state that the next round starts with if no line is processed.
pub shell_key : ℕ → Shell → Option (List ℕ) × Shell
shell_key c s =
    let cleared = record s { cmd_buf = memset s.cmd_buf 0 256; cmd_len = 0 } in
    if c == 10
    then ((if ltb 0 s.cmd_len then some (text (set s.cmd_buf s.cmd_len 0)) else none), cleared)
    else if c == 8
    then (
      none,
      (if ltb 0 s.cmd_len
          then record s { cmd_buf = set s.cmd_buf (s.cmd_len - 1) 0; cmd_len = s.cmd_len - 1 }
          else s),
    )
    else if ltb s.cmd_len (cmd_buf_size - 1)
    then (none, record s { cmd_buf = set s.cmd_buf s.cmd_len c; cmd_len = s.cmd_len + 1 })
    else (none, s)
