-- ===== src/Shell/Commands.antt =====
-- src/shell/shell.c: which command a line is.
-- A command is named by what runs it, with what stands behind its name as `args`.
mod Table
mod Tests
use dosfs.Prelude.{
  Bool, true, false, ◌&&◌, ◌||◌, ℕ, Option, none, some, List, [], ◌∷◌, ◌==◌, if◌then◌else◌, is_zero,
  length, drop,
}
use dosfs.Libc.{strcmp, strncmp}
use dosfs.Libc.Number.{skip_blanks}
use dosfs.Shell.Files.{is_empty}
use dosfs.Shell.Line.{Shell, add_to_history, shell_key}

pub data Command : Type 0 where
  help clear uname mem uptime ps ls reboot shutdown : Command
  ipc_test date whoami pwd show_history reset beep about tui_test : Command
  cpuinfo ver sysinfo pci colors disk fatls dump : Command
  echo touch write_file cat rm cp mv hexdump color : List ℕ → Command
  create_process calc random fatread fatwrite ping curl sacpi asm : List ℕ → Command
  reg dano unknown : List ℕ → Command

-- a test of the chain in `process_command`, with the command that it leads to
pub data Entry : Type 0 where
  -- `strcmp(cmd, word) == 0`
  whole : List ℕ → Command → Entry
  -- `strncmp(cmd, word, n) == 0 && (cmd[n] == ' ' || cmd[n] == 0)`
  first : List ℕ → (List ℕ → Command) → Entry

-- the byte behind the word ends it
pub ends_word : List ℕ → Bool
ends_word [] = true
ends_word (c ∷ s) = (c == b' ') || (c == 0)

pub starts_with : List ℕ → List ℕ → Bool
unfolding ends_word
starts_with cmd word =
    is_zero (strncmp cmd word (length word)) && ends_word (drop (length word) cmd)

-- the tests, in the order of the source
abbrev pub commands : List Entry
commands =
    whole (b'h' ∷ b'e' ∷ b'l' ∷ b'p' ∷ []) help
    ∷ whole (b'?' ∷ []) help
    ∷ whole (b'c' ∷ b'l' ∷ b'e' ∷ b'a' ∷ b'r' ∷ []) clear
    ∷ whole (b'c' ∷ b'l' ∷ b's' ∷ []) clear
    ∷ first (b'e' ∷ b'c' ∷ b'h' ∷ b'o' ∷ []) echo
    ∷ whole (b'u' ∷ b'n' ∷ b'a' ∷ b'm' ∷ b'e' ∷ []) uname
    ∷ whole (b'm' ∷ b'e' ∷ b'm' ∷ []) mem
    ∷ whole (b'f' ∷ b'r' ∷ b'e' ∷ b'e' ∷ []) mem
    ∷ whole (b'u' ∷ b'p' ∷ b't' ∷ b'i' ∷ b'm' ∷ b'e' ∷ []) uptime
    ∷ whole (b'p' ∷ b's' ∷ []) ps
    ∷ first (b't' ∷ b'o' ∷ b'u' ∷ b'c' ∷ b'h' ∷ []) touch
    ∷ first (b'w' ∷ b'r' ∷ b'i' ∷ b't' ∷ b'e' ∷ []) write_file
    ∷ first (b'c' ∷ b'a' ∷ b't' ∷ []) cat
    ∷ first (b'r' ∷ b'm' ∷ []) rm
    ∷ first (b'c' ∷ b'p' ∷ []) cp
    ∷ first (b'm' ∷ b'v' ∷ []) mv
    ∷ first (b'h' ∷ b'e' ∷ b'x' ∷ b'd' ∷ b'u' ∷ b'm' ∷ b'p' ∷ []) hexdump
    ∷ whole (b'l' ∷ b's' ∷ []) ls
    ∷ whole (b'r' ∷ b'e' ∷ b'b' ∷ b'o' ∷ b'o' ∷ b't' ∷ []) reboot
    ∷ whole (b's' ∷ b'h' ∷ b'u' ∷ b't' ∷ b'd' ∷ b'o' ∷ b'w' ∷ b'n' ∷ []) shutdown
    ∷ first (b'c' ∷ b'o' ∷ b'l' ∷ b'o' ∷ b'r' ∷ []) color
    ∷ first (b'c' ∷ b'r' ∷ b'e' ∷ b'a' ∷ b't' ∷ b'e' ∷ []) create_process
    ∷ whole (b'i' ∷ b'p' ∷ b'c' ∷ []) ipc_test
    ∷ whole (b'd' ∷ b'a' ∷ b't' ∷ b'e' ∷ []) date
    ∷ whole (b'w' ∷ b'h' ∷ b'o' ∷ b'a' ∷ b'm' ∷ b'i' ∷ []) whoami
    ∷ whole (b'p' ∷ b'w' ∷ b'd' ∷ []) pwd
    ∷ first (b'c' ∷ b'a' ∷ b'l' ∷ b'c' ∷ []) calc
    ∷ whole (b'h' ∷ b'i' ∷ b's' ∷ b't' ∷ b'o' ∷ b'r' ∷ b'y' ∷ []) show_history
    ∷ whole (b'r' ∷ b'e' ∷ b's' ∷ b'e' ∷ b't' ∷ []) reset
    ∷ whole (b'b' ∷ b'e' ∷ b'e' ∷ b'p' ∷ []) beep
    ∷ whole (b'a' ∷ b'b' ∷ b'o' ∷ b'u' ∷ b't' ∷ []) about
    ∷ whole (b't' ∷ b'u' ∷ b'i' ∷ b't' ∷ b'e' ∷ b's' ∷ b't' ∷ []) tui_test
    ∷ whole (b'c' ∷ b'p' ∷ b'u' ∷ b'i' ∷ b'n' ∷ b'f' ∷ b'o' ∷ []) cpuinfo
    ∷ whole (b'v' ∷ b'e' ∷ b'r' ∷ []) ver
    ∷ whole (b's' ∷ b'y' ∷ b's' ∷ b'i' ∷ b'n' ∷ b'f' ∷ b'o' ∷ []) sysinfo
    ∷ whole (b'p' ∷ b'c' ∷ b'i' ∷ []) pci
    ∷ whole (b'c' ∷ b'o' ∷ b'l' ∷ b'o' ∷ b'r' ∷ b's' ∷ []) colors
    ∷ first (b'r' ∷ b'a' ∷ b'n' ∷ b'd' ∷ b'o' ∷ b'm' ∷ []) random
    ∷ whole (b'd' ∷ b'i' ∷ b's' ∷ b'k' ∷ []) disk
    ∷ whole (b'f' ∷ b'a' ∷ b't' ∷ b'l' ∷ b's' ∷ []) fatls
    ∷ first (b'f' ∷ b'a' ∷ b't' ∷ b'r' ∷ b'e' ∷ b'a' ∷ b'd' ∷ []) fatread
    ∷ first (b'f' ∷ b'a' ∷ b't' ∷ b'w' ∷ b'r' ∷ b'i' ∷ b't' ∷ b'e' ∷ []) fatwrite
    ∷ first (b'p' ∷ b'i' ∷ b'n' ∷ b'g' ∷ []) ping
    ∷ first (b'c' ∷ b'u' ∷ b'r' ∷ b'l' ∷ []) curl
    ∷ first (b's' ∷ b'a' ∷ b'c' ∷ b'p' ∷ b'i' ∷ []) sacpi
    ∷ whole (b'd' ∷ b'u' ∷ b'm' ∷ b'p' ∷ []) dump
    ∷ first (b'a' ∷ b's' ∷ b'm' ∷ []) asm
    ∷ first (b'r' ∷ b'e' ∷ b'g' ∷ []) reg
    ∷ first (b'd' ∷ b'a' ∷ b'n' ∷ b'o' ∷ []) dano
    ∷ []

-- the command of the first test that holds
pub choose : List Entry → List ℕ → Command
unfolding starts_with
choose [] cmd = unknown cmd
choose (whole word c ∷ es) cmd =
    let rest = choose es cmd in if is_zero (strcmp cmd word) then c else rest
choose (first word make ∷ es) cmd =
    let rest = choose es cmd in if starts_with cmd word then make (drop (length word) cmd) else rest

-- What `process_command` runs, if anything, and the state with the line in the history.
pub process_command : List ℕ → Shell → Option Command × Shell
unfolding choose
process_command line s =
    let cmd = skip_blanks line in
    if is_empty cmd then (none, s) else (some (choose commands cmd), add_to_history cmd s)

-- One round of `shell_run` as far as the shell's own state goes: the command that it runs, if any.
pub shell_round : ℕ → Shell → Option Command × Shell
unfolding process_command
shell_round c s =
    let (line, s') = shell_key c s in
    elim line [ none ↦ (none, s') | some cmd ↦ process_command cmd s' ]
