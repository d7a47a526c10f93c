-- ===== src/Process/Scheduler/Tests.antt =====
-- The scheduler at work, and its theorems at small tables.
use dosfs.Prelude.{ℕ, ◌+◌, ◌*◌, ◌^◌, ◌≤◌, ◌≡◌, refl, true, some, List, [], ◌∷◌, arith, ltb}
use dosfs.Memory.Pages.{Pages}
use dosfs.Process.Scheduler.{
  Scheduler, put_process, zero_process, scheduler_init, scheduler_tick, process_create,
  process_exit, process_yield,
}
use dosfs.Process.Scheduler.Invariant.{IsValid, scheduler_init-IsValid}
use dosfs.Process.Scheduler.Tick.{scheduler_tick-IsValid}
use dosfs.Process.Scheduler.Fairness.{ticks, tick_fair}
use dosfs.Process.Scheduler.Create.{process_create-IsValid, process_exit-leaks}
use dosfs.Process.Scheduler.Reach.{State, Reach-IsValid, here, next, tick, yield, create, exit}

-- Pages handed out one after the other; what is given back low in memory is counted.
abbrev plenty : Pages
plenty = record {
  Frames = ℕ;
  alloc_page = λ n. ((n + 1) * 4096, n + 1);
  free_page = λ p n. elim (ltb p (2 ^ 28)) [ true ↦ n + 1000 | _ ↦ n ];
  map_page = λ v p f n. n;
  unmap_page = λ v n. n;
}

abbrev blank : Scheduler
blank = record { processes = []; current = some 3; process_count = 0 }

abbrev empty : Scheduler
empty = scheduler_init blank

abbrev name : List ℕ
name = b's' ∷ b'h' ∷ []

abbrev one : Scheduler
one = (process_create plenty name 0x1000 empty 0).0

abbrev two : Scheduler
two = (process_create plenty name 0x2000 one 2).0

empty-IsValid : IsValid empty
empty-IsValid = scheduler_init-IsValid blank refl

one-IsValid : IsValid one
one-IsValid = process_create-IsValid plenty name 0x1000 empty 0 empty-IsValid

two-IsValid : IsValid two
two-IsValid = process_create-IsValid plenty name 0x2000 one 2 one-IsValid

ticked-IsValid : IsValid (scheduler_tick two)
ticked-IsValid = scheduler_tick-IsValid two two-IsValid

-- A tick, a yield and the exit of the process that then runs.
abbrev lived : State plenty
lived = process_exit plenty 7 (process_yield (scheduler_tick two)) 4

Reach-IsValid_example : IsValid lived.0
unfolding process_create scheduler_init
Reach-IsValid_example = Reach-IsValid plenty blank 0 refl (
    next
      (next
        (next (next (next here (create (empty, 0) name 0x1000)) (create (one, 2) name 0x2000))
          (tick (two, 4)))
        (yield (scheduler_tick two, 4)))
      (exit (process_yield (scheduler_tick two), 4) 7))

rounds :
    ((ticks 1 two).current ≡ some 0)
    × ((ticks 2 two).current ≡ some 1)
    × ((ticks 3 two).current ≡ some 0)
unfolding process_create scheduler_init scheduler_tick
rounds = (refl, refl, refl)

tick_fair_example : (n : ℕ) × (n ≤ 32) × ((ticks n two).current ≡ some 1)
unfolding process_create scheduler_init
tick_fair_example = tick_fair two 1 two-IsValid (omega arith) refl

frames_kept : (p g : ℕ) → 2 ^ 28 ≤ p → plenty.free_page p g ≡ g
frames_kept p g h = ground arith

-- A process alone with its two stacks.
abbrev alone : Scheduler
alone =
    put_process (record { processes = zero_process ∷ []; current = some 0; process_count = 1 }) 0
      (record zero_process { kernel_stack = 0x3000; user_stack = 0xBFFFF000 })

process_exit-leaks_example : (process_exit plenty 7 alone 4).1 ≡ 1004
process_exit-leaks_example =
    process_exit-leaks plenty 7 alone 4 0 refl (omega arith) (omega arith) (omega arith) frames_kept
