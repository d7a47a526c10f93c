-- ===== src/Process/Scheduler/Fairness.antt =====
-- Round robin: a process that can run gets the processor within 32 ticks.
use mathlib.Core.Path.{sym, ap, ◌∙◌}
use native.Mathlib.Decide.{dec_lt, ℕ_discrete}
use dosfs.Prelude.{
  ℕ, zero, suc, ◌+◌, ◌-◌, ◌%◌, ◌≤◌, ◌<◌, ◌≡◌, ◌≢◌, refl, true, false, some, List, [], ◌∷◌, arith,
  get_or, inl, inr, ◌⊎◌, Option-cases, Bool-cases, get_or-set,
}
use dosfs.Process.Scheduler.{
  Process, ready, running, Scheduler, zero_process, process_at, is_runnable, is_current,
  max_processes, after, find_next, count_slice, switch_to, process_yield, scheduler_tick,
}
use dosfs.Process.Scheduler.Invariant.{
  IsValid, live, weight, count_slice-IsValid, process_yield-none, process_yield-IsValid,
  process_yield-some,
}
use dosfs.Process.Scheduler.Tick.{
  find_next_first, count_slice-current, count_slice-state, tick_switches, scheduler_tick-IsValid,
}

abbrev pub ticks : ℕ → Scheduler → Scheduler
ticks zero s = s
ticks (suc n) s = ticks n (scheduler_tick s)

-- How many places the search passes over before it looks at `j`.
abbrev distance : Scheduler → ℕ → ℕ
distance s j = (j + 32 - after s.current % 32) % 32

weight-le-live : (ps : List Process) (i : ℕ) → weight (get_or ps i zero_process) ≤ live ps
unfolding live
weight-le-live [] i = omega arith
weight-le-live (p ∷ ps) zero = omega arith
weight-le-live (p ∷ ps) (suc i) = omega (arith, weight-le-live ps i)

process_yield-runnable :
    (s : Scheduler) (j : ℕ)
    → IsValid s
    → is_runnable (process_at s j) ≡ true
    → is_runnable (process_at (process_yield s) j) ≡ true
process_yield-runnable s j v r = elim (Option-cases s.current) [
  | inl e ↦ rw (process_yield-none s e) r
  | inr (c, e) ↦ rw (process_yield-some s c e) (
      ground (
        arith,
        get_or-set s.processes c j (record (process_at s c) { state = ready }) zero_process
            (omega (arith, v.full, v.in_range c e)),
      ))
]

-- Switching leaves a runnable process runnable.
switch_to-runnable :
    (s : Scheduler) (next j : ℕ)
    → IsValid s
    → next < 32
    → is_runnable (process_at s j) ≡ true
    → is_runnable (process_at (switch_to s next) j) ≡ true
unfolding switch_to
switch_to-runnable s next j v h r =
    let s' = process_yield s in
    ground (
      arith,
      process_yield-runnable s j v r,
      get_or-set s'.processes next j (record (process_at s' next) { state = running }) zero_process
          (omega (arith, (process_yield-IsValid s v).full)),
    )

switch_to-current : (s : Scheduler) (next : ℕ) → (switch_to s next).current ≡ some next
unfolding switch_to
switch_to-current s next = refl

-- The process that the search finds, seen from `j`: it is not the current one, and it is `j` or
-- comes before `j`.
record Found (s : Scheduler) (j next : ℕ) : Type 0 where
  found : find_next max_processes s.processes (after s.current) 0 ≡ some next
  in_range : next < 32
  other : is_current s next ≡ false
  near : (next ≡ j) ⊎ ((j + 32 - (next + 1) % 32) % 32 < distance s j)

nearer :
    (b j k : ℕ)
    → j < 32
    → k ≤ (j + 32 - b % 32) % 32
    → ((b + (0 + k)) % 32 ≡ j)
      ⊎ ((j + 32 - ((b + (0 + k)) % 32 + 1) % 32) % 32 < (j + 32 - b % 32) % 32)
nearer b j k h le = elim (dec_lt k ((j + 32 - b % 32) % 32)) [
  | yes lt ↦ inr (omega arith)
  | no ge ↦ inl (omega arith)
]

never_round :
    (c j k : ℕ)
    → c < 32
    → j < 32
    → c ≢ j
    → k ≤ (j + 32 - (c + 1) % 32) % 32
    → (c + 1 + (0 + k)) % 32 ≢ c
never_round c j k hc hj ne le = omega arith

not_current :
    (s : Scheduler) (j k : ℕ)
    → IsValid s
    → j < 32
    → s.current ≢ some j
    → k ≤ distance s j
    → is_current s ((after s.current + (0 + k)) % 32) ≡ false
not_current s j k v h ne le = elim (Option-cases s.current) [
  | inl e ↦ ground arith
  | inr (c, e) ↦
      let c_in : c < 32 = v.in_range c e in
      let base : after s.current ≡ c + 1 = ground arith in
      let apart : c ≢ j = λ same. ne (e ∙ ap some same) in
      let away : (c + 1 + (0 + k)) % 32 ≢ c = never_round c j k c_in h apart (rw base at le) in
      ground (arith, away)
]

find_next-Found :
    (s : Scheduler) (j : ℕ)
    → IsValid s
    → j < 32
    → is_runnable (process_at s j) ≡ true
    → s.current ≢ some j
    → (next : ℕ) × Found s j next
find_next-Found s j v h r ne =
    let b = after s.current in
    let place : (b + (0 + distance s j)) % 32 ≡ j = omega arith in
    let r' : is_runnable (get_or s.processes ((b + (0 + distance s j)) % 32) zero_process) ≡ true =
      rw place r in
    let (k, le, e) = find_next_first 32 s.processes b 0 (distance s j) (omega arith) r' in
    (
      (b + (0 + k)) % 32,
      record {
        found = e;
        in_range = omega arith;
        other = not_current s j k v h ne le;
        near = nearer b j k h le;
      },
    )

turn :
    (s : Scheduler) (next j d : ℕ)
    → (next ≡ j) ⊎ ((j + 32 - (next + 1) % 32) % 32 < d)
    → ((switch_to s next).current ≡ some j)
      ⊎ ((switch_to s next).current ≢ some j × (distance (switch_to s next) j < d))
turn s next j d near = rw (switch_to-current s next) (elim (ℕ_discrete next j) [
  | yes e ↦ inl (ap some e)
  | no ne ↦ inr (λ e. ground arith, ground arith)
])

-- One tick either hands the processor to `j` or brings its turn nearer.
tick_nearer :
    (s : Scheduler) (j : ℕ)
    → IsValid s
    → j < 32
    → is_runnable (process_at s j) ≡ true
    → s.current ≢ some j
    → (is_runnable (process_at (scheduler_tick s) j) ≡ true)
      × (((scheduler_tick s).current ≡ some j)
          ⊎ ((scheduler_tick s).current ≢ some j × (distance (scheduler_tick s) j < distance s j)))
tick_nearer s j v h r other =
    let s' = count_slice s in
    let v' = count_slice-IsValid s v in
    let cur : s'.current ≡ s.current = count_slice-current s in
    let r' : is_runnable (process_at s' j) ≡ true = ground (arith, count_slice-state s j v) in
    let (next, f) = find_next-Found s' j v' h r' (λ e. other (sym cur ∙ e)) in
    let busy : s.process_count ≢ 0 = ground (arith, v.counted, weight-le-live s.processes j) in
    rw (tick_switches s next busy f.found f.other) (
      switch_to-runnable s' next j v' f.in_range r',
      turn s' next j (distance s j) (rw cur at f.near),
    )

-- By induction on a bound of the distance.
within_distance :
    (d : ℕ) (s : Scheduler) (j : ℕ)
    → IsValid s
    → j < 32
    → is_runnable (process_at s j) ≡ true
    → s.current ≢ some j
    → distance s j < d
    → (n : ℕ) × (n ≤ d) × ((ticks n s).current ≡ some j)
within_distance zero s j v h r other near = absurd (omega arith)
within_distance (suc d) s j v h r other near = elim (tick_nearer s j v h r other).1 [
  | inl done ↦ (1, omega arith, done)
  | inr (other', less) ↦
      let (n, le, e) =
        within_distance d (scheduler_tick s) j (scheduler_tick-IsValid s v) h
          (tick_nearer s j v h r other).0 other' (omega arith) in
      (suc n, omega arith, e)
]

-- In a well-formed table, a process that is ready or running is the current one after at most 32
-- ticks.
pub tick_fair :
    (s : Scheduler) (j : ℕ)
    → IsValid s
    → j < 32
    → is_runnable (process_at s j) ≡ true
    → (n : ℕ) × (n ≤ 32) × ((ticks n s).current ≡ some j)
tick_fair s j v h r = elim (Bool-cases (is_current s j)) [
  | inl here ↦ (0, omega arith, ground arith)
  | inr away ↦ within_distance 32 s j v h r (λ e. ground arith) (omega arith)
]
