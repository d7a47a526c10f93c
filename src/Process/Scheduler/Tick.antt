-- ===== src/Process/Scheduler/Tick.antt =====
-- `scheduler_tick`: the search for the next process, and the invariant.
use mathlib.Core.Path.{ap, ◌∙◌}
use dosfs.Prelude.{
  ℕ, zero, suc, ◌+◌, ◌%◌, ◌≤◌, ◌<◌, ◌≡◌, ◌≢◌, true, false, some, List, arith, get_or, ◌==◌, inl,
  inr, Option-cases, Bool-cases, get_or-set,
}
use dosfs.Process.Scheduler.{
  Process, Scheduler, zero_process, process_at, is_running, is_runnable, is_current, max_processes,
  after, find_next, count_slice, switch_to, scheduler_tick,
}
use dosfs.Process.Scheduler.Invariant.{
  IsValid, sliced, count_slice-IsValid, count_slice-none, count_slice-running, count_slice-other,
  switch_to-IsValid,
}

-- What the search returns is a runnable process.
pub find_next_runnable :
    (n : ℕ) (ps : List Process) (base i : ℕ) {k : ℕ}
    → find_next n ps base i ≡ some k
    → (k < 32) × (is_runnable (get_or ps k zero_process) ≡ true)
unfolding find_next
find_next_runnable zero ps base i e = cc
find_next_runnable (suc n) ps base i {k} e =
    elim (Bool-cases (is_runnable (get_or ps ((base + i) % max_processes) zero_process))) [
      | inl r ↦ ground arith
      | inr r ↦ find_next_runnable n ps base (i + 1) (ground arith)
    ]

-- It stops at the first one: a runnable process `d` places on is found, or one before it.
pub find_next_first :
    (n : ℕ) (ps : List Process) (base i d : ℕ)
    → d < n
    → is_runnable (get_or ps ((base + (i + d)) % 32) zero_process) ≡ true
    → (k : ℕ) × (k ≤ d) × (find_next n ps base i ≡ some ((base + (i + k)) % 32))
unfolding find_next
find_next_first zero ps base i d h r = absurd (omega arith)
find_next_first (suc n) ps base i zero h r =
    let here : (base + i) % 32 ≡ (base + (i + 0)) % 32 = omega arith in
    let found : is_runnable (get_or ps ((base + i) % 32) zero_process) ≡ true = rw here r in
    (0, omega arith, rw found (ap some here))
find_next_first (suc n) ps base i (suc d) h r =
    elim (Bool-cases (is_runnable (get_or ps ((base + i) % max_processes) zero_process))) [
      | inl here ↦ (0, omega arith, rw here (ap some (omega arith)))
      | inr later ↦
          let shift : (base + (i + suc d)) % 32 ≡ (base + (i + 1 + d)) % 32 = omega arith in
          let (k, le, e) = find_next_first n ps base (i + 1) d (omega arith) (rw shift at r) in
          (k + 1, omega arith, rw later (e ∙ ap some (omega arith)))
    ]

-- Counting a slice changes neither states nor the current process.
pub count_slice-current : (s : Scheduler) → (count_slice s).current ≡ s.current
unfolding count_slice
count_slice-current s = ground arith

pub count_slice-count : (s : Scheduler) → (count_slice s).process_count ≡ s.process_count
unfolding count_slice
count_slice-count s = ground arith

pub count_slice-state :
    (s : Scheduler) (i : ℕ)
    → IsValid s
    → (process_at (count_slice s) i).state ≡ (process_at s i).state
count_slice-state s i v = elim (Option-cases s.current) [
  | inl e ↦ rw (count_slice-none s e)
  | inr (c, e) ↦ elim (Bool-cases (is_running (process_at s c))) [
    | inl r ↦
        let at =
          get_or-set s.processes c i (sliced (process_at s c)) zero_process
            (omega (arith, v.full, v.in_range c e)) in
        rw (count_slice-running s c e r) (ground (arith, at))
    | inr r ↦ rw (count_slice-other s c e r)
  ]
]

-- The three ways in which a tick can go.
pub tick_switches :
    (s : Scheduler) (next : ℕ)
    → s.process_count ≢ 0
    → find_next max_processes (count_slice s).processes (after (count_slice s).current) 0
      ≡ some next
    → is_current (count_slice s) next ≡ false
    → scheduler_tick s ≡ switch_to (count_slice s) next
unfolding scheduler_tick
tick_switches s next busy found other =
    let go : (s.process_count == 0) ≡ false = ground arith in rw (go, found, other)

-- `scheduler_tick` keeps the table well-formed.
pub scheduler_tick-IsValid : (s : Scheduler) → IsValid s → IsValid (scheduler_tick s)
unfolding scheduler_tick
scheduler_tick-IsValid s v = elim (Bool-cases (s.process_count == 0)) [
  | inl idle ↦ rw idle v
  | inr busy ↦
      let v' = count_slice-IsValid s v in
      elim (Option-cases
        (find_next max_processes (count_slice s).processes (after (count_slice s).current) 0)) [
          | inl e ↦ rw (busy, e) v'
          | inr (next, e) ↦
              let found =
                find_next_runnable max_processes (count_slice s).processes
                  (after (count_slice s).current) 0 e in
              elim (Bool-cases (is_current (count_slice s) next)) [
                | inl same ↦ rw (busy, e, same) v'
                | inr other ↦
                    rw (busy, e, other)
                      (switch_to-IsValid (count_slice s) next v' found.0 (ground (arith, found.1)))
              ]
        ]
]
