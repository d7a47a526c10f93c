-- ===== src/Process/Scheduler/Invariant.antt =====
-- What every operation of the scheduler keeps.
use dosfs.Prelude.{
  ℕ, zero, suc, ◌+◌, ◌≤◌, ◌<◌, ◌≡◌, ◌≢◌, refl, true, false, none, some, List, [], ◌∷◌, arith,
  length, get_or, set, length-set, get_or-set, length-replicate, replicate, if◌then◌else◌, inl, inr,
  Option-cases, Bool-cases, ◌%◌, ◌^◌,
}
use mathlib.Core.Path.{subst, sym}
use dosfs.Process.Scheduler.{
  Process, unused, ready, running, Scheduler, zero_process, is_unused, process_at, put_process,
  scheduler_init, process_yield, count_slice, switch_to, is_running,
}

-- The processes that exist.
abbrev pub weight : Process → ℕ
weight p = if is_unused p then 0 else 1

unfoldable pub live : List Process → ℕ
live [] = 0
live (p ∷ ps) = weight p + live ps

pub live-set :
    (ps : List Process) (i : ℕ) (p : Process)
    → i < length ps
    → live (set ps i p) + weight (get_or ps i zero_process) ≡ live ps + weight p
unfolding live
live-set [] i p h = absurd (omega arith)
live-set (q ∷ ps) zero p h = omega arith
live-set (q ∷ ps) (suc i) p h = omega (arith, live-set ps i p (omega arith))

pub live-le-length : (ps : List Process) → live ps ≤ length ps
unfolding live
live-le-length [] = omega arith
live-le-length (p ∷ ps) = ground (arith, live-le-length ps)

-- What holds of the process at index `i`.
pub record SlotIsValid (s : Scheduler) (i : ℕ) : Type 0 where
  -- only the current process is running
  pub one_running : (process_at s i).state ≡ running → s.current ≡ some i
  -- the current process exists
  pub current_live : s.current ≡ some i → (process_at s i).state ≢ unused
  pub own_pid : (process_at s i).state ≢ unused → (process_at s i).pid ≡ i + 1

pub record IsValid (s : Scheduler) : Type 0 where
  pub full : length s.processes ≡ 32
  pub counted : s.process_count ≡ live s.processes
  pub in_range : (c : ℕ) → s.current ≡ some c → c < 32
  pub slots : (i : ℕ) → i < 32 → SlotIsValid s i

live-replicate : (n : ℕ) → live (replicate n zero_process) ≡ 0
unfolding live
live-replicate zero = refl
live-replicate (suc n) = omega (arith, live-replicate n)

get_or-replicate : (n i : ℕ) → get_or (replicate n zero_process) i zero_process ≡ zero_process
get_or-replicate zero i = refl
get_or-replicate (suc n) zero = refl
get_or-replicate (suc n) (suc i) = get_or-replicate n i

-- `scheduler_init` makes a well-formed table, if no process is counted yet.
pub scheduler_init-IsValid : (s : Scheduler) → s.process_count ≡ 0 → IsValid (scheduler_init s)
unfolding scheduler_init
scheduler_init-IsValid s e = record {
  full = length-replicate 32 zero_process;
  counted = omega (arith, live-replicate 32);
  in_range = λ c h. cc;
  slots = λ i h. record {
    one_running = λ r. ground (arith, get_or-replicate 32 i);
    current_live = λ r. cc;
    own_pid = λ r. ground (arith, get_or-replicate 32 i);
  };
}

-- A write to one slot that keeps the count right and fits the current process.
pub put-IsValid :
    (s : Scheduler) (c : ℕ) (p : Process)
    → IsValid s
    → c < 32
    → weight p ≡ weight (process_at s c)
    → (p.state ≡ running → s.current ≡ some c)
    → p.pid ≡ (process_at s c).pid
    → IsValid (put_process s c p)
put-IsValid s c p v h same run pid = record {
  full = omega (arith, v.full, length-set s.processes c p);
  counted = omega (arith, v.full, v.counted, live-set s.processes c p (omega (arith, v.full)));
  in_range = v.in_range;
  slots = λ i lt.
      let at = get_or-set s.processes c i p zero_process (omega (arith, v.full)) in
      let old = v.slots i lt in
      record {
        one_running = ground (arith, at, old.one_running);
        current_live = ground (arith, at, old.current_live);
        own_pid = ground (arith, at, old.own_pid);
      };
}

abbrev pub sliced : Process → Process
sliced p = record p { time_slices = (p.time_slices + 1) % 2 ^ 32 }

pub count_slice-none : (s : Scheduler) → s.current ≡ none → count_slice s ≡ s
unfolding count_slice
count_slice-none s e = ground arith

pub count_slice-running :
    (s : Scheduler) (c : ℕ)
    → s.current ≡ some c
    → is_running (process_at s c) ≡ true
    → count_slice s ≡ put_process s c (sliced (process_at s c))
unfolding count_slice
count_slice-running s c e r = ground arith

pub count_slice-other :
    (s : Scheduler) (c : ℕ)
    → s.current ≡ some c
    → is_running (process_at s c) ≡ false
    → count_slice s ≡ s
unfolding count_slice
count_slice-other s c e r = ground arith

pub process_yield-none : (s : Scheduler) → s.current ≡ none → process_yield s ≡ s
unfolding process_yield
process_yield-none s e = ground arith

pub process_yield-some :
    (s : Scheduler) (c : ℕ)
    → s.current ≡ some c
    → process_yield s ≡ put_process s c (record (process_at s c) { state = ready })
unfolding process_yield
process_yield-some s c e = ground arith

-- `process_yield` keeps the table well-formed.
pub process_yield-IsValid : (s : Scheduler) → IsValid s → IsValid (process_yield s)
process_yield-IsValid s v = elim (Option-cases s.current) [
  | inl e ↦ subst IsValid (sym (process_yield-none s e)) v
  | inr (c, e) ↦ subst IsValid (sym (process_yield-some s c e)) (
      put-IsValid s c (record (process_at s c) { state = ready }) v (v.in_range c e)
        (ground (arith, (v.slots c (v.in_range c e)).current_live)) (λ r. cc) refl)
]

pub count_slice-IsValid : (s : Scheduler) → IsValid s → IsValid (count_slice s)
count_slice-IsValid s v = elim (Option-cases s.current) [
  | inl e ↦ subst IsValid (sym (count_slice-none s e)) v
  | inr (c, e) ↦ elim (Bool-cases (is_running (process_at s c))) [
    | inl r ↦
        subst IsValid (sym (count_slice-running s c e r))
          (put-IsValid s c (sliced (process_at s c)) v (v.in_range c e) refl (λ _. e) refl)
    | inr r ↦ subst IsValid (sym (count_slice-other s c e r)) v
  ]
]

-- After a yield no process is running.
pub process_yield_idle :
    (s : Scheduler) (i : ℕ) → IsValid s → i < 32 → (process_at (process_yield s) i).state ≢ running
process_yield_idle s i v h = elim (Option-cases s.current) [
  | inl e ↦ rw (process_yield-none s e) (λ r. cc ((v.slots i h).one_running r))
  | inr (c, e) ↦ rw (process_yield-some s c e) (λ r. ground (
    arith,
    (v.slots i h).one_running,
    get_or-set s.processes c i (record (process_at s c) { state = ready }) zero_process
        (omega (arith, v.full, v.in_range c e)),
  ))
]

pub process_yield_live :
    (s : Scheduler) (i : ℕ)
    → IsValid s
    → (process_at s i).state ≢ unused
    → (process_at (process_yield s) i).state ≢ unused
process_yield_live s i v live = elim (Option-cases s.current) [
  | inl e ↦ rw (process_yield-none s e) live
  | inr (c, e) ↦ rw (process_yield-some s c e) (λ r. ground (
    arith,
    get_or-set s.processes c i (record (process_at s c) { state = ready }) zero_process
        (omega (arith, v.full, v.in_range c e)),
  ))
]

-- With no process running, any process may be made the running one.
run-IsValid :
    (s : Scheduler) (next : ℕ)
    → IsValid s
    → ((i : ℕ) → i < 32 → (process_at s i).state ≢ running)
    → next < 32
    → (process_at s next).state ≢ unused
    → IsValid (record (put_process s next (record (process_at s next) { state = running })) {
      current = some next;
    })
run-IsValid s next v idle h used =
    let p : Process = record (process_at s next) { state = running } in
    record {
      full = omega (arith, v.full, length-set s.processes next p);
      counted = ground (arith, v.full, v.counted, live-set s.processes next p);
      in_range = λ c e. ground arith;
      slots = λ i lt.
          let at = get_or-set s.processes next i p zero_process (omega (arith, v.full)) in
          let old = v.slots i lt in
          record {
            one_running = ground (arith, at, idle i);
            current_live = ground (arith, at);
            own_pid = ground (arith, at, old.own_pid, (v.slots next h).own_pid);
          };
    }

-- Handing the processor to a slot that holds a process.
pub switch_to-IsValid :
    (s : Scheduler) (next : ℕ)
    → IsValid s
    → next < 32
    → (process_at s next).state ≢ unused
    → IsValid (switch_to s next)
unfolding switch_to
switch_to-IsValid s next v h used =
    run-IsValid (process_yield s) next (process_yield-IsValid s v)
      (λ i lt. process_yield_idle s i v lt) h (process_yield_live s next v used)
