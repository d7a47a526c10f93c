-- ===== src/Process/Scheduler.antt =====
-- src/process/scheduler.c: a table of 32 processes, scheduled round robin.
-- `current_process` is -1 for `none`. Numbers are 32-bit patterns; the exit code is kept as one.
-- `vga_printf` and the `cli; hlt` of the last exit have no effect on the state and are left out.
pub mod Invariant
pub mod Tick
pub mod Fairness
pub mod Create
pub mod Reach
mod Tests
use dosfs.Prelude.{
  ℕ, zero, suc, ◌+◌, ◌-◌, ◌*◌, ◌/◌, ◌%◌, ◌^◌, Bool, true, false, not, ◌&&◌, ◌||◌, Option, none,
  some, List, [], ◌∷◌, ltb, leb, ◌==◌, if◌then◌else◌, get_or, set, replicate,
}
use dosfs.Libc.{strncpy}
use dosfs.Memory.Pages.{Pages}

pub data ProcState : Type 0 where
  unused ready running blocked zombie : ProcState

-- `cpu_state_t`
pub record CpuState : Type 0 where
  pub eax : ℕ
  pub ebx : ℕ
  pub ecx : ℕ
  pub edx : ℕ
  pub esi : ℕ
  pub edi : ℕ
  pub ebp : ℕ
  pub esp : ℕ
  pub eip : ℕ
  pub eflags : ℕ
  pub cs : ℕ
  pub ss : ℕ
  pub ds : ℕ
  pub es : ℕ
  pub fs : ℕ
  pub gs : ℕ

-- what `memset` to 0 leaves
abbrev pub zero_cpu : CpuState
zero_cpu = record {
  eax = 0;
  ebx = 0;
  ecx = 0;
  edx = 0;
  esi = 0;
  edi = 0;
  ebp = 0;
  esp = 0;
  eip = 0;
  eflags = 0;
  cs = 0;
  ss = 0;
  ds = 0;
  es = 0;
  fs = 0;
  gs = 0;
}

pub record Process : Type 0 where
  pub pid : ℕ
  pub state : ProcState
  pub name : List ℕ
  pub kernel_stack : ℕ
  pub user_stack : ℕ
  pub cpu_state : CpuState
  pub time_slices : ℕ
  pub exit_code : ℕ

abbrev pub zero_process : Process
zero_process = record {
  pid = 0;
  state = unused;
  name = replicate 32 0;
  kernel_stack = 0;
  user_stack = 0;
  cpu_state = zero_cpu;
  time_slices = 0;
  exit_code = 0;
}

abbrev pub max_processes : ℕ
max_processes = 32

abbrev pub page_size : ℕ
page_size = 4096

pub record Scheduler : Type 0 where
  pub processes : List Process
  pub current : Option ℕ
  pub process_count : ℕ

abbrev pub is_unused : Process → Bool
is_unused p = elim p.state [ unused ↦ true | _ ↦ false ]

abbrev pub is_running : Process → Bool
is_running p = elim p.state [ running ↦ true | _ ↦ false ]

-- `state == PROC_READY || state == PROC_RUNNING`
abbrev pub is_runnable : Process → Bool
is_runnable p = elim p.state [ ready ↦ true | running ↦ true | _ ↦ false ]

abbrev pub process_at : Scheduler → ℕ → Process
process_at s i = get_or s.processes i zero_process

abbrev pub put_process : Scheduler → ℕ → Process → Scheduler
put_process s i p = record s { processes = set s.processes i p }

-- `process_count` is left as it is.
pub scheduler_init : Scheduler → Scheduler
scheduler_init s = record s { processes = replicate 32 zero_process; current = none }

-- the first unused slot, from index `i` on
pub find_slot : List Process → ℕ → Option ℕ
find_slot [] i = none
find_slot (p ∷ ps) i = if is_unused p then some i else find_slot ps (i + 1)

-- the first index among `(base + i) % 32`, for the `n` values of `i` from `i` on, that can run
pub find_next : ℕ → List Process → ℕ → ℕ → Option ℕ
find_next zero ps base i = none
find_next (suc n) ps base i =
    let idx = (base + i) % max_processes in
    let rest = find_next n ps base (i + 1) in
    if is_runnable (get_or ps idx zero_process) then some idx else rest

-- `current_process + 1`
abbrev pub after : Option ℕ → ℕ
after none = 0
after (some c) = c + 1

-- `if (current_process >= 0 && …state == PROC_RUNNING) …time_slices++`
pub count_slice : Scheduler → Scheduler
count_slice s = elim s.current [
  | none ↦ s
  | some c ↦
      let p = process_at s c in
      if is_running p
      then put_process s c (record p { time_slices = (p.time_slices + 1) % 2 ^ 32 })
      else s
]

pub process_yield : Scheduler → Scheduler
process_yield s = elim s.current [
  | none ↦ s
  | some c ↦ put_process s c (record (process_at s c) { state = ready })
]

pub switch_to : Scheduler → ℕ → Scheduler
unfolding process_yield
switch_to s next =
    let s' = process_yield s in
    record (put_process s' next (record (process_at s' next) { state = running })) {
      current = some next;
    }

abbrev pub is_current : Scheduler → ℕ → Bool
is_current s i = elim s.current [ none ↦ false | some c ↦ i == c ]

pub scheduler_tick : Scheduler → Scheduler
unfolding count_slice find_next switch_to
scheduler_tick s =
    if s.process_count == 0
    then s
    else let s' = count_slice s in
      elim (find_next max_processes s'.processes (after s'.current) 0) [
        | none ↦ s'
        | some next ↦ if is_current s' next then s' else switch_to s' next
      ]

-- NULL is `none`, a process is its slot.
pub scheduler_current : Scheduler → Option ℕ
scheduler_current s = s.current

-- `pid` is a signed 32-bit pattern.
pub scheduler_get : Scheduler → ℕ → Option ℕ
scheduler_get s pid =
    if leb (2 ^ 31) pid || pid == 0 || ltb max_processes pid
    then none
    else if is_unused (process_at s (pid - 1))
    then none
    else some (pid - 1)

module _ (P : Pages) where
  open P use {Frames, alloc_page, free_page, map_page, unmap_page}

  -- `process_create` from the slot on
  pub fill_slot : ℕ → List ℕ → ℕ → Scheduler → Frames → Scheduler × Frames
  fill_slot slot name entry s f =
      let proc = record (process_at s slot) {
        pid = slot + 1;
        state = ready;
        time_slices = 0;
        exit_code = 0;
        name = set (strncpy (process_at s slot).name name 31) 31 0;
      } in
      let (kstack, f1) = alloc_page f in
      if kstack == 0
      then (put_process s slot (record proc { state = unused }), f1)
      else let proc1 = record proc {
        kernel_stack = (kstack + page_size) % 2 ^ 32;
        user_stack = 0xBFFFF000 - slot * page_size;
      } in
        let (ustack, f2) = alloc_page f1 in
        if ustack == 0
        then (put_process s slot (record proc1 { state = unused }), free_page kstack f2)
        else (
          record (put_process s slot (record proc1 {
            cpu_state = record zero_cpu {
              eip = entry;
              esp = proc1.user_stack;
              ebp = proc1.user_stack;
              cs = 0x1B;
              ds = 0x23;
              ss = 0x23;
              eflags = 0x202;
            };
          })) { process_count = (s.process_count + 1) % 2 ^ 32 },
          map_page proc1.user_stack ustack 7 f2,
        )

  -- `process_count` is a signed 32-bit pattern.
  pub process_create : List ℕ → ℕ → Scheduler → Frames → Scheduler × Frames
  unfolding find_slot fill_slot
  process_create name entry s f =
      if leb max_processes s.process_count && ltb s.process_count (2 ^ 31)
      then (s, f)
      else elim (find_slot s.processes 0) [
        | none ↦ (s, f)
        | some slot ↦ fill_slot slot name entry s f
      ]

  -- the two stacks of `process_exit`
  pub free_stacks : Process → Frames → Process × Frames
  free_stacks p f =
      let f1 =
        if p.kernel_stack == 0
        then f
        else free_page ((p.kernel_stack + 2 ^ 32 - page_size) % 2 ^ 32) f in
      let f2 =
        if p.user_stack == 0
        then f1
        else free_page (p.user_stack / page_size * page_size) (unmap_page p.user_stack f1) in
      (record p { kernel_stack = 0; user_stack = 0 }, f2)

  pub process_exit : ℕ → Scheduler → Frames → Scheduler × Frames
  unfolding free_stacks
  process_exit code s f = elim s.current [
    | none ↦ (s, f)
    | some c ↦
        let (p, f') = free_stacks (process_at s c) f in
        (
          record (put_process s c (record p { state = unused; exit_code = code })) {
            current = none;
            process_count = (s.process_count + 2 ^ 32 - 1) % 2 ^ 32;
          },
          f',
        )
  ]
