-- ===== src/Process/Scheduler/Create.antt =====
-- `process_create` and `process_exit` keep the invariant, and what becomes of the pages.
use mathlib.Core.Path.{subst, sym, ◌∙◌}
use dosfs.Prelude.{
  ℕ, suc, ◌+◌, ◌-◌, ◌*◌, ◌/◌, ◌%◌, ◌^◌, ◌≤◌, ◌<◌, ◌≡◌, ◌≢◌, refl, true, false, none, some, List, [],
  ◌∷◌, arith, length, get_or, ◌==◌, ◌&&◌, ltb, leb, inl, inr, ◌↔◌, Option-cases, Bool-cases,
  get_or-set, length-set,
}
use dosfs.Memory.Pages.{Pages}
use dosfs.Process.Scheduler.{
  Process, unused, running, Scheduler, zero_process, process_at, put_process, is_unused,
  max_processes, find_slot, fill_slot, process_create, process_exit, free_stacks, scheduler_get,
}
use dosfs.Process.Scheduler.Invariant.{IsValid, weight, live-set, live-le-length}

-- The search returns an unused slot.
find_slot-unused :
    (ps : List Process) (i : ℕ) {k : ℕ}
    → find_slot ps i ≡ some k
    → (i ≤ k) × (k < i + length ps) × (is_unused (get_or ps (k - i) zero_process) ≡ true)
unfolding find_slot
find_slot-unused [] i e = cc
find_slot-unused (p ∷ ps) i {k} e = elim (Bool-cases (is_unused p)) [
  | inl u ↦
      let same : i ≡ k = ground arith in
      let first : k - i ≡ 0 = omega arith in (omega arith, omega arith, rw first u)
  | inr u ↦
      let ih = find_slot-unused ps (i + 1) {k = k} (ground arith) in
      let next : k - i ≡ suc (k - (i + 1)) = omega (arith, ih.0) in
      (omega (arith, ih.0), omega (arith, ih.1), rw next ih.2)
]

-- A write to a slot other than the current one, with the count that goes with it.
put_other-IsValid :
    (s : Scheduler) (c n : ℕ) (p : Process)
    → IsValid s
    → c < 32
    → s.current ≢ some c
    → p.state ≢ running
    → (p.state ≢ unused → p.pid ≡ c + 1)
    → n + weight (process_at s c) ≡ s.process_count + weight p
    → IsValid (record (put_process s c p) { process_count = n })
put_other-IsValid s c n p v h other stopped pid count = record {
  full = omega (arith, v.full, length-set s.processes c p);
  counted = omega (arith, v.full, v.counted, live-set s.processes c p);
  in_range = v.in_range;
  slots = λ i lt.
      let at = get_or-set s.processes c i p zero_process (omega (arith, v.full)) in
      let old = v.slots i lt in
      record {
        one_running = ground (arith, at, old.one_running);
        current_live = ground (arith, at, old.current_live);
        own_pid = ground (arith, at, old.own_pid);
      };
}

module _ (P : Pages) where
  fill_slot-IsValid :
      (slot : ℕ) (name : List ℕ) (entry : ℕ) (s : Scheduler) (f : P.Frames)
      → IsValid s
      → slot < 32
      → (process_at s slot).state ≡ unused
      → IsValid (fill_slot P slot name entry s f).0
  unfolding fill_slot
  fill_slot-IsValid slot name entry s f v h u =
      let other : s.current ≢ some slot = λ e. (v.slots slot h).current_live e u in
      let small : s.process_count ≤ 32 =
        omega (arith, v.counted, v.full, live-le-length s.processes) in
      elim (Bool-cases ((P.alloc_page f).0 == 0)) [
        | inl e ↦ rw e (
            put_other-IsValid s slot s.process_count _ v h other (λ r. cc) (λ r. absurd (r refl))
              (ground arith))
        | inr e ↦ elim (Bool-cases ((P.alloc_page (P.alloc_page f).1).0 == 0)) [
          | inl e' ↦
              rw (e, e')
                (put_other-IsValid s slot s.process_count _ v h other (λ r. cc)
                  (λ r. absurd (r refl)) (ground arith))
          | inr e' ↦
              rw (e, e')
                (put_other-IsValid s slot ((s.process_count + 1) % 2 ^ 32) _ v h other (λ r. cc)
                  (λ r. refl) (ground arith))
        ]
      ]

  -- `process_create` keeps the table well-formed, out of memory or out of slots included.
  pub process_create-IsValid :
      (name : List ℕ) (entry : ℕ) (s : Scheduler) (f : P.Frames)
      → IsValid s
      → IsValid (process_create P name entry s f).0
  unfolding process_create
  process_create-IsValid name entry s f v =
      elim (Bool-cases (leb max_processes s.process_count && ltb s.process_count (2 ^ 31))) [
        | inl e ↦ rw e v
        | inr e ↦ elim (Option-cases (find_slot s.processes 0)) [
          | inl none_left ↦ rw (e, none_left) v
          | inr (slot, found) ↦
              let (low, high, u) = find_slot-unused s.processes 0 {k = slot} found in
              rw (e, found)
                (fill_slot-IsValid slot name entry s f v (omega (arith, high, v.full))
                  (ground (arith, u)))
        ]
      ]

  exit-none :
      (code : ℕ) (s : Scheduler) (f : P.Frames) → s.current ≡ none → (process_exit P code s f).0 ≡ s
  unfolding process_exit
  exit-none code s f e = ground arith

  exit-some :
      (code : ℕ) (s : Scheduler) (f : P.Frames) (c : ℕ)
      → s.current ≡ some c
      → (process_exit P code s f).0
        ≡ record (put_process s c
            (record (free_stacks P (process_at s c) f).0 { state = unused; exit_code = code })) {
              current = none;
              process_count = (s.process_count + 2 ^ 32 - 1) % 2 ^ 32;
            }
  unfolding process_exit
  exit-some code s f c e = ground arith

  -- The current process leaves the table.
  leave-IsValid :
      (s : Scheduler) (c : ℕ) (p : Process)
      → IsValid s
      → s.current ≡ some c
      → p.state ≡ unused
      → IsValid (record (put_process s c p) {
        current = none;
        process_count = (s.process_count + 2 ^ 32 - 1) % 2 ^ 32;
      })
  leave-IsValid s c p v cur u =
      let c_in : c < 32 = v.in_range c cur in
      let live_c = (v.slots c c_in).current_live cur in
      record {
        full = omega (arith, v.full, length-set s.processes c p);
        counted =
            ground (arith, v.full, v.counted, live-set s.processes c p, live-le-length s.processes);
        in_range = λ c e. cc;
        slots = λ i lt.
            let at = get_or-set s.processes c i p zero_process (omega (arith, v.full)) in
            let old = v.slots i lt in
            record {
              one_running = ground (arith, at, old.one_running);
              current_live = λ e. cc;
              own_pid = ground (arith, at, old.own_pid);
            };
      }

  -- `process_exit` keeps the table well-formed.
  pub process_exit-IsValid :
      (code : ℕ) (s : Scheduler) (f : P.Frames) → IsValid s → IsValid (process_exit P code s f).0
  unfolding process_exit
  process_exit-IsValid code s f v = elim (Option-cases s.current) [
    | inl e ↦ subst IsValid (sym (exit-none code s f e)) v
    | inr (c, e) ↦ subst IsValid (sym (exit-some code s f c e)) (leave-IsValid s c _ v e refl)
  ]

  -- Where `pmm_free_page` ignores addresses from 2 ^ 28 on, beyond the pages that it knows, the exit of
  -- a process with both stacks gives back the page of its kernel stack, and the page of its user
  -- stack is only unmapped: what is handed to `pmm_free_page` for it is the virtual address.
  pub process_exit-leaks :
      (code : ℕ) (s : Scheduler) (f : P.Frames) (c : ℕ)
      → s.current ≡ some c
      → (process_at s c).kernel_stack ≢ 0
      → (process_at s c).kernel_stack < 2 ^ 32
      → 2 ^ 28 ≤ (process_at s c).user_stack
      → ((p : ℕ) (g : P.Frames) → 2 ^ 28 ≤ p → P.free_page p g ≡ g)
      → (process_exit P code s f).1
        ≡ P.unmap_page
            (process_at s c).user_stack
            (P.free_page (((process_at s c).kernel_stack + 2 ^ 32 - 4096) % 2 ^ 32) f)
  unfolding process_exit free_stacks
  process_exit-leaks code s f c e k small u beyond =
      let page : ℕ = (process_at s c).user_stack / 4096 * 4096 in
      ground (
        arith,
        beyond page (
            P.unmap_page (process_at s c).user_stack
              (P.free_page (((process_at s c).kernel_stack + 2 ^ 32 - 4096) % 2 ^ 32) f)),
      )

scheduler_get-found :
    (s : Scheduler) (pid i : ℕ)
    → IsValid s
    → scheduler_get s pid ≡ some i
    → (i < 32) × ((process_at s i).state ≢ unused) × ((process_at s i).pid ≡ pid)
unfolding scheduler_get
scheduler_get-found s pid i v e =
    let h : i < 32 = ground arith in
    let u : (process_at s i).state ≢ unused = ground arith in
    (h, u, ground (arith, (v.slots i h).own_pid u))

scheduler_get-finds :
    (s : Scheduler) (pid i : ℕ)
    → i < 32
    → (process_at s i).state ≢ unused
    → pid ≡ i + 1
    → scheduler_get s pid ≡ some i
unfolding scheduler_get
scheduler_get-finds s pid i h u e =
    let back : pid - 1 ≡ i = omega arith in
    let used : is_unused (process_at s (pid - 1)) ≡ false = rw back (ground arith) in ground arith

-- In a well-formed table, `scheduler_get` returns a process exactly when it exists and has that pid.
pub scheduler_get_iff :
    (s : Scheduler) (pid i : ℕ)
    → IsValid s
    → (scheduler_get s pid ≡ some i)
      ↔ ((i < 32) × ((process_at s i).state ≢ unused) × ((process_at s i).pid ≡ pid))
scheduler_get_iff s pid i v = (
  scheduler_get-found s pid i v,
  λ (h, u, e). scheduler_get-finds s pid i h u (sym e ∙ (v.slots i h).own_pid u),
)
