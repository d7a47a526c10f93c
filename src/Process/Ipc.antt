-- ===== src/Process/Ipc.antt =====
-- src/process/ipc.c and the queue of messages behind it, rust/src/ipc.rs.
-- Numbers are 32-bit patterns. The fields `data` and `length` of a message are `content` and `size`
-- here. Interrupts are off in both functions of the queue, so each is one step.
mod Order
mod Tests
use mathlib.Core.List.{map}
use dosfs.Prelude.{
  ℕ, ◌+◌, ◌%◌, Bool, true, false, not, ◌&&◌, ◌||◌, none, some, List, [], ltb, ◌==◌, if◌then◌else◌,
  get_or, set, take, replicate,
}
use dosfs.Libc.{memcpy}
use dosfs.Process.Scheduler.{Scheduler, scheduler_get, scheduler_current, process_at}

pub record Message : Type 0 where
  pub sender : ℕ
  pub receiver : ℕ
  pub content : List ℕ
  pub size : ℕ
  pub used : Bool

pub record Queue : Type 0 where
  pub messages : List Message
  pub head : ℕ
  pub tail : ℕ

abbrev pub empty_message : Message
empty_message = record {
  sender = 0;
  receiver = 0;
  content = replicate 256 0;
  size = 0;
  used = false;
}

abbrev pub message_at : Queue → ℕ → Message
message_at q i = get_or q.messages i empty_message

abbrev pub clear_message : Message → Message
clear_message msg = record msg { used = false; size = 0 }

pub rust_ipc_init : Queue → Queue
rust_ipc_init q = record { messages = map clear_message q.messages; head = 0; tail = 0 }

-- The number returned and the queue.
pub rust_ipc_send : ℕ → ℕ → List ℕ → ℕ → Queue → ℕ × Queue
rust_ipc_send from to bytes length q =
    let len = if ltb 256 length then 256 else length in
    let next = (q.tail + 1) % 64 in
    let msg = message_at q q.tail in
    if next == q.head then (0xFFFFFFFF, q) else if ltb to 1 || ltb 32 to then (0xFFFFFFFF, q) else (
      len,
      record q {
        messages = set q.messages q.tail (record {
          sender = from;
          receiver = to;
          content = memcpy msg.content bytes len;
          size = len;
          used = true;
        });
        tail = next;
      },
    )

-- The number returned, the bytes that are copied to the buffer, and the queue.
pub rust_ipc_receive : ℕ → ℕ → Queue → ℕ × List ℕ × Queue
rust_ipc_receive from max_len q =
    let msg = message_at q q.head in
    let copy_len = if ltb max_len msg.size then max_len else msg.size in
    let q' = record q { head = (q.head + 1) % 64 } in
    if q.head == q.tail
    then (0, [], q)
    else if not msg.used
    then (0, [], q')
    else if not (from == 0) && not (msg.sender == from)
    then (0, [], q)
    else (
      copy_len,
      take copy_len msg.content,
      record q' { messages = set q.messages q.head (record msg { used = false }) },
    )

pub ipc_send : Scheduler → ℕ → List ℕ → ℕ → Queue → ℕ × Queue
unfolding rust_ipc_send
ipc_send s to bytes length q =
    let from : ℕ = elim (scheduler_current s) [ none ↦ 0 | some i ↦ (process_at s i).pid ] in
    elim (scheduler_get s to) [
      | none ↦ (0xFFFFFFFF, q)
      | some i ↦ rust_ipc_send from to bytes length q
    ]

pub ipc_receive : ℕ → ℕ → Queue → ℕ × List ℕ × Queue
unfolding rust_ipc_receive
ipc_receive from max_len q = rust_ipc_receive from max_len q
