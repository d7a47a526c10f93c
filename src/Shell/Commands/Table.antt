-- ===== src/Shell/Commands/Table.antt =====
-- Every command can be reached.
use dosfs.Prelude.{ℕ, zero, suc, ◌≡◌, refl, false, some, List, [], ◌∷◌, ◌++◌, replicate}
use dosfs.Libc.{strcmp, strncmp}
use dosfs.Libc.Number.{skip_blanks}
use dosfs.Shell.Files.{is_empty}
use dosfs.Shell.Line.{Shell, add_to_history}
use dosfs.Shell.Commands.{
  Command, Entry, whole, first, commands, choose, ends_word, starts_with, process_command,
}

-- the line with `n` blanks before it
abbrev behind_blanks : ℕ → List ℕ → List ℕ
behind_blanks n line = replicate n b' ' ++ line

skip_blanks-replicate : (n : ℕ) (s : List ℕ) → skip_blanks (replicate n b' ' ++ s) ≡ skip_blanks s
unfolding skip_blanks
skip_blanks-replicate zero s = refl
skip_blanks-replicate (suc n) s = skip_blanks-replicate n s

-- A line is chosen as the command, and its first byte is not a blank.
abbrev Chosen : List ℕ → Command → Type 0
Chosen line c = (choose commands line ≡ c) × (skip_blanks line ≡ line) × (is_empty line ≡ false)

Chosen-runs :
    (n : ℕ) (line : List ℕ) (c : Command) (s : Shell)
    → Chosen line c
    → process_command (behind_blanks n line) s ≡ (some c, add_to_history line s)
unfolding process_command
Chosen-runs n line c s h = rw (process_command, skip_blanks-replicate n line, h.1, h.2, h.0) refl

-- What it is for an entry to be reached: its word, and with a test of the first word also that word
-- before a blank and whatever arguments.
IsChosen : Entry → Type 0
IsChosen (whole word c) = Chosen word c
IsChosen (first word make) =
    Chosen word (make []) × ((args : List ℕ) → Chosen (word ++ (b' ' ∷ args)) (make (b' ' ∷ args)))

pub Reached : Entry → Type 0
Reached (whole word c) =
    (n : ℕ) (s : Shell) → process_command (behind_blanks n word) s ≡ (some c, add_to_history word s)
Reached (first word make) =
    (n : ℕ) (s : Shell)
    → (process_command (behind_blanks n word) s ≡ (some (make []), add_to_history word s))
      × ((args : List ℕ)
          → process_command (behind_blanks n (word ++ (b' ' ∷ args))) s
            ≡ (some (make (b' ' ∷ args)), add_to_history (word ++ (b' ' ∷ args)) s))

data AllChosen : List Entry → Type 0 where
  done : AllChosen []
  ◌also◌ : {e : Entry} {es : List Entry} → IsChosen e → AllChosen es → AllChosen (e ∷ es)

infixr 5 ◌also◌
all_chosen : AllChosen commands
unfolding IsChosen choose starts_with strcmp strncmp skip_blanks ends_word
all_chosen =
    (refl, refl, refl)
    also (refl, refl, refl)
    also (refl, refl, refl)
    also (refl, refl, refl)
    also ((refl, refl, refl), λ args. (refl, refl, refl))
    also (refl, refl, refl)
    also (refl, refl, refl)
    also (refl, refl, refl)
    also (refl, refl, refl)
    also (refl, refl, refl)
    also ((refl, refl, refl), λ args. (refl, refl, refl))
    also ((refl, refl, refl), λ args. (refl, refl, refl))
    also ((refl, refl, refl), λ args. (refl, refl, refl))
    also ((refl, refl, refl), λ args. (refl, refl, refl))
    also ((refl, refl, refl), λ args. (refl, refl, refl))
    also ((refl, refl, refl), λ args. (refl, refl, refl))
    also ((refl, refl, refl), λ args. (refl, refl, refl))
    also (refl, refl, refl)
    also (refl, refl, refl)
    also (refl, refl, refl)
    also ((refl, refl, refl), λ args. (refl, refl, refl))
    also ((refl, refl, refl), λ args. (refl, refl, refl))
    also (refl, refl, refl)
    also (refl, refl, refl)
    also (refl, refl, refl)
    also (refl, refl, refl)
    also ((refl, refl, refl), λ args. (refl, refl, refl))
    also (refl, refl, refl)
    also (refl, refl, refl)
    also (refl, refl, refl)
    also (refl, refl, refl)
    also (refl, refl, refl)
    also (refl, refl, refl)
    also (refl, refl, refl)
    also (refl, refl, refl)
    also (refl, refl, refl)
    also (refl, refl, refl)
    also ((refl, refl, refl), λ args. (refl, refl, refl))
    also (refl, refl, refl)
    also (refl, refl, refl)
    also ((refl, refl, refl), λ args. (refl, refl, refl))
    also ((refl, refl, refl), λ args. (refl, refl, refl))
    also ((refl, refl, refl), λ args. (refl, refl, refl))
    also ((refl, refl, refl), λ args. (refl, refl, refl))
    also ((refl, refl, refl), λ args. (refl, refl, refl))
    also (refl, refl, refl)
    also ((refl, refl, refl), λ args. (refl, refl, refl))
    also ((refl, refl, refl), λ args. (refl, refl, refl))
    also ((refl, refl, refl), λ args. (refl, refl, refl))
    also done

pub data In (e : Entry) : List Entry → Type 0 where
  here : {es : List Entry} → In e (e ∷ es)
  later : {d : Entry} {es : List Entry} → In e es → In e (d ∷ es)

IsChosen-at : {e : Entry} {es : List Entry} → AllChosen es → In e es → IsChosen e
IsChosen-at done i = elim i [ ]
IsChosen-at (p also ps) here = p
IsChosen-at (p also ps) (later i) = IsChosen-at ps i

-- Whatever blanks stand before it, each command's word leads to that command and not to another's,
-- and so does the word before a blank and arguments, for a command that has them; the line goes into
-- the history without its first blanks.
pub process_command-Reached : (e : Entry) → In e commands → Reached e
unfolding Reached IsChosen
process_command-Reached (whole word c) i = λ n s. Chosen-runs n word c s (IsChosen-at all_chosen i)
process_command-Reached (first word make) i = λ n s.
    let (bare, before) = IsChosen-at all_chosen i in
    (
      Chosen-runs n word (make []) s bare,
      λ args. Chosen-runs n (word ++ (b' ' ∷ args)) (make (b' ' ∷ args)) s (before args),
    )
