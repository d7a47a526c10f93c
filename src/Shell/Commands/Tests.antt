-- ===== src/Shell/Commands/Tests.antt =====
-- The command `help` by its second name.
use dosfs.Prelude.{[], ◌∷◌}
use dosfs.Shell.Commands.{Entry, whole, help}
use dosfs.Shell.Commands.Table.{Reached, here, later, process_command-Reached}

abbrev question : Entry
question = whole (b'?' ∷ []) help

process_command-Reached_example : Reached question
process_command-Reached_example = process_command-Reached question (later here)
