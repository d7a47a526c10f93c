-- ===== src/Syscall/Handler/Tests.antt =====
-- A call on a small machine.
use dosfs.Prelude.{◌*◌, ℕ, ◌+◌, List, [], ◌∷◌, none, replicate}
use dosfs.Memory.Pages.{Pages}
use dosfs.Process.Scheduler.{Scheduler, scheduler_init, process_create}
use dosfs.Process.Ipc.{empty_message}
use dosfs.Syscall.Handler.{Regs, Kernel}

-- pages that never run out, counted
abbrev plenty : Pages
plenty = record {
  Frames = ℕ;
  alloc_page = λ f. ((f + 1) * 4096, f + 1);
  free_page = λ p f. f;
  map_page = λ v p g f. f;
  unmap_page = λ v f. f;
}

abbrev counted : ℕ → ℕ
counted f = f

abbrev no_process : Scheduler
no_process = scheduler_init (record { processes = []; current = none; process_count = 0 })

abbrev shell_text : List ℕ
shell_text = b's' ∷ b'h' ∷ []

-- a machine with one process, at the call `regs`
abbrev machine : Regs → Kernel plenty counted counted
machine regs = record {
  regs = regs;
  scheduler = (process_create plenty shell_text 0x1000 no_process 0).0;
  frames = 2;
  queue = record { messages = replicate 64 empty_message; head = 0; tail = 0 };
  bytes = λ a. 0;
  shown = [];
}

-- `exit`
abbrev exit_call : Regs
exit_call = record { eax = 3; ebx = 7; ecx = 0; edx = 0; cs = 0x1B }
