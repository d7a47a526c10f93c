-- ===== src/Shell/Line/Tests.antt =====
-- A key and a line at the start.
use dosfs.Prelude.{
  ℕ, ◌≡◌, ◌≤◌, ◌++◌, ◌&&◌, none, some, List, [], ◌∷◌, arith, ltb, ◌==◌, if◌then◌else◌, length,
  length-replicate,
}
use dosfs.Libc.Text.{text}
use dosfs.Shell.Line.{shell_init, shell_key, add_to_history}
use dosfs.Shell.Line.Edit.{HasLine, line, pressed, shell_key-pressed}
use dosfs.Shell.Line.History.{HasHistory, lines, last, add_to_history-lines, shell_init-lines}

shell_init-HasLine : HasLine shell_init
shell_init-HasLine = record { room = length-replicate {A = ℕ} 256 0; short = omega arith }

shell_key-pressed_example :
    HasLine (shell_key b'l' shell_init).1
    × (line (shell_key b'l' shell_init).1 ≡ pressed b'l' (line shell_init))
    × ((shell_key b'l' shell_init).0 ≡ (
        if (b'l' == 10) && ltb 0 (length (line shell_init))
        then some (text (line shell_init))
        else none))
shell_key-pressed_example = shell_key-pressed b'l' shell_init shell_init-HasLine

abbrev ls : List ℕ
ls = b'l' ∷ b's' ∷ []

ls_short : length (text ls) ≤ 255
unfolding text
ls_short = omega arith

add_to_history-lines_example :
    HasHistory (add_to_history ls shell_init)
    × (lines (add_to_history ls shell_init) ≡ last 20 (lines shell_init ++ (text ls ∷ [])))
add_to_history-lines_example = add_to_history-lines ls shell_init shell_init-lines.0 ls_short
