-- ===== src/Syscall/Handler.antt =====
-- src/syscall/syscall.c: the dispatcher and the calls over the scheduler and the queue of messages.
-- The pages of the machine are a parameter, with the counts that `sys_meminfo` asks for.
-- The echo of what is typed is left out.
mod Table
mod Tests
use dosfs.Prelude.{
  ℕ, zero, suc, ◌+◌, ◌*◌, ◌%◌, ◌^◌, Bool, true, false, not, Option, none, some, List, [], ◌∷◌, ◌++◌,
  ◌==◌, if◌then◌else◌,
}
use dosfs.Memory.Pages.{Pages}
use dosfs.Process.Scheduler.{Scheduler, process_at, scheduler_current, process_exit, process_yield}
use dosfs.Process.Ipc.{Queue, ipc_send, ipc_receive}
use dosfs.Syscall.{Bytes, store, u32, validate_user_pointer, sys_write, sys_read}

-- the registers of a call
pub record Regs : Type 0 where
  pub eax : ℕ
  pub ebx : ℕ
  pub ecx : ℕ
  pub edx : ℕ
  pub cs : ℕ

pub read_bytes : ℕ → ℕ → Bytes → List ℕ
read_bytes zero a m = []
read_bytes (suc n) a m = m a ∷ read_bytes n (a + 1) m

pub write_bytes : List ℕ → ℕ → Bytes → Bytes
write_bytes [] a m = m
write_bytes (b ∷ bs) a m = write_bytes bs (a + 1) (store m a b)

-- -1
abbrev pub failed : ℕ
failed = 0xFFFFFFFF

module _ (P : Pages) (free_count total_count : P.Frames → ℕ) where
  pub record Kernel : Type 0 where
    pub regs : Regs
    pub scheduler : Scheduler
    pub frames : P.Frames
    pub queue : Queue
    pub bytes : Bytes
    -- what `sys_write` has shown
    pub shown : List ℕ

  abbrev pub answer : ℕ → Kernel → Kernel
  answer r k = record k { regs = record k.regs { eax = r } }

  pub sys_exit : Kernel → Kernel
  sys_exit k =
      let (s, f) = process_exit P k.regs.ebx k.scheduler k.frames in
      record k { scheduler = s; frames = f }

  pub sys_getpid : Kernel → Kernel
  sys_getpid k = elim (scheduler_current k.scheduler) [
    | none ↦ answer failed k
    | some i ↦ answer (process_at k.scheduler i).pid k
  ]

  pub sys_ipc_send : Kernel → Kernel
  sys_ipc_send k =
      let (r, q) =
        ipc_send k.scheduler k.regs.ebx (read_bytes k.regs.edx k.regs.ecx k.bytes) k.regs.edx
          k.queue in
      if not (validate_user_pointer k.regs.ecx k.regs.edx)
      then answer failed k
      else answer r (record k { queue = q })

  pub sys_ipc_recv : Kernel → Kernel
  sys_ipc_recv k =
      let (r, bs, q) = ipc_receive k.regs.ebx k.regs.edx k.queue in
      if not (validate_user_pointer k.regs.ecx k.regs.edx)
      then answer failed k
      else answer r (record k { queue = q; bytes = write_bytes bs k.regs.ecx k.bytes })

  pub sys_sleep : Kernel → Kernel
  sys_sleep k = record k { scheduler = process_yield k.scheduler }

  pub sys_meminfo : Kernel → Kernel
  sys_meminfo k = record k {
    regs = record k.regs {
      eax = u32 (free_count k.frames * 4096);
      ebx = u32 (total_count k.frames * 4096);
    };
  }

  -- `typed` is what is typed during the call; there is no result while it waits for more.
  pub syscall_handler : List ℕ → Kernel → Option Kernel
  unfolding sys_exit sys_getpid sys_ipc_send sys_ipc_recv sys_sleep sys_meminfo
  syscall_handler typed k =
      let read : Option Kernel = elim (sys_read typed k.regs.ebx k.regs.ecx k.bytes) [
        | none ↦ none
        | some (r, m) ↦ some (answer r (record k { bytes = m }))
      ] in
      let (written, out) = sys_write k.regs.ebx k.regs.ecx k.bytes in
      if not (k.regs.cs % 4 == 3)
      then some (answer failed k)
      else if k.regs.eax == 1
      then some (answer written (record k { shown = k.shown ++ out }))
      else if k.regs.eax == 2
      then read
      else if k.regs.eax == 3
      then some (sys_exit k)
      else if k.regs.eax == 6
      then some (sys_getpid k)
      else if k.regs.eax == 7
      then some (sys_ipc_send k)
      else if k.regs.eax == 8
      then some (sys_ipc_recv k)
      else if k.regs.eax == 9
      then some (sys_sleep k)
      else if k.regs.eax == 10
      then some (sys_meminfo k)
      else some (answer failed k)
