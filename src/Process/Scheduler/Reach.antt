-- ===== src/Process/Scheduler/Reach.antt =====
-- The life of the process table: the steps of the kernel from `scheduler_init` on, in any order.
use dosfs.Prelude.{ℕ, ◌≡◌, List}
use dosfs.Memory.Pages.{Pages}
use dosfs.Process.Scheduler.{
  Scheduler, scheduler_init, scheduler_tick, process_create, process_exit, process_yield,
}
use dosfs.Process.Scheduler.Invariant.{IsValid, scheduler_init-IsValid, process_yield-IsValid}
use dosfs.Process.Scheduler.Tick.{scheduler_tick-IsValid}
use dosfs.Process.Scheduler.Create.{process_create-IsValid, process_exit-IsValid}

module _ (P : Pages) where
  open P use {Frames}

  -- the table and the physical pages
  abbrev pub State : Type 0
  State = Scheduler × Frames

  pub data Step : State → State → Type 0 where
    tick : (k : State) → Step k (scheduler_tick k.0, k.1)
    yield : (k : State) → Step k (process_yield k.0, k.1)
    create : (k : State) (name : List ℕ) (entry : ℕ) → Step k (process_create P name entry k.0 k.1)
    exit : (k : State) (code : ℕ) → Step k (process_exit P code k.0 k.1)

  pub data Reach (k : State) : State → Type 0 where
    here : Reach k k
    next : {l m : State} → Reach k l → Step l m → Reach k m

  Step-IsValid : {k l : State} → Step k l → IsValid k.0 → IsValid l.0
  Step-IsValid (tick k) v = scheduler_tick-IsValid k.0 v
  Step-IsValid (yield k) v = process_yield-IsValid k.0 v
  Step-IsValid (create k name entry) v = process_create-IsValid P name entry k.0 k.1 v
  Step-IsValid (exit k code) v = process_exit-IsValid P code k.0 k.1 v

  -- Whatever pages there are, every state that ticks, yields, creations and exits lead to, in any order, from a table that `scheduler_init` has made with no process counted, is well-formed.
  pub Reach-IsValid :
      (s : Scheduler) (f : Frames)
      → s.process_count ≡ 0
      → {k : State} → Reach (scheduler_init s, f) k
      → IsValid k.0
  Reach-IsValid s f h here = scheduler_init-IsValid s h
  Reach-IsValid s f h (next r st) = Step-IsValid st (Reach-IsValid s f h r)
