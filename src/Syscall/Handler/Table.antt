-- ===== src/Syscall/Handler/Table.antt =====
-- The process table under system calls.
use dosfs.Prelude.{◌≡◌, ℕ, ◌≡◌, Option, none, some}
use dosfs.Memory.Pages.{Pages}
use dosfs.Process.Scheduler.Invariant.{IsValid}
use dosfs.Syscall.Handler.{Kernel}

module _ (P : Pages) (free_count total_count : P.Frames → ℕ) where
  abbrev pub StillValid : ℕ → Option (Kernel P free_count total_count) → Type 0
  StillValid call none = call ≡ 2
  StillValid call (some k) = IsValid k.scheduler
