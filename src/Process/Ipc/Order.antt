-- ===== src/Process/Ipc/Order.antt =====
-- A message that is sent is received.
use dosfs.Prelude.{
  take_front, ℕ, true, false, not, ◌&&◌, ◌+◌, ◌%◌, ◌<◌, ◌≤◌, ◌≡◌, ◌⊎◌, refl, ap, sym, List, arith,
  length, get_or, set, take, drop, take_all, ltb, get_or-set_self, ◌==◌,
}
use dosfs.Libc.Copy.{memcpy_lem}
use dosfs.Libc.{memcpy}
use dosfs.Process.Ipc.{Message, Queue, message_at, empty_message, rust_ipc_send, rust_ipc_receive}

-- When no message waits, a message of at most 256 bytes to a pid from 1 to 32 is accepted, and a receiver with room for it that asks for its sender, or for any, gets its bytes, whoever it is sent to; then no message waits.
pub rust_ipc_receive-send :
    (from to want max_len : ℕ) (bytes : List ℕ) (q : Queue)
    → length q.messages ≡ 64
    → q.head < 64
    → q.tail ≡ q.head
    → length (message_at q q.tail).content ≡ 256
    → 0 < to
    → to ≤ 32
    → length bytes ≤ 256
    → length bytes ≤ max_len
    → (want ≡ 0) ⊎ (want ≡ from)
    → let (sent, q1) = rust_ipc_send from to bytes (length bytes) q in
      let (got, copied, q2) = rust_ipc_receive want max_len q1 in
      (sent ≡ length bytes) × (got ≡ length bytes) × (copied ≡ bytes) × (q2.head ≡ q2.tail)
unfolding rust_ipc_send rust_ipc_receive
rust_ipc_receive-send from to want max_len bytes q n h e c lo hi fits room asked =
    let clip : ltb 256 (length bytes) ≡ false = ground arith in
    let free : ((q.tail + 1) % 64 == q.head) ≡ false = ground arith in
    let low : ltb to 1 ≡ false = ground arith in
    let high : ltb 32 to ≡ false = ground arith in
    let msg : Message = record {
      sender = from;
      receiver = to;
      content = memcpy (message_at q q.tail).content bytes (length bytes);
      size = length bytes;
      used = true;
    } in
    let here : get_or (set q.messages q.tail msg) q.head empty_message ≡ msg =
      rw (← e) (get_or-set_self q.messages q.tail msg empty_message (omega (arith, n, h, e))) in
    let all : take (length bytes) (memcpy (message_at q q.tail).content bytes (length bytes))
        ≡ bytes =
      rw
        (
          memcpy_lem (message_at q q.tail).content bytes (length bytes) (omega (arith, c))
              (omega arith),
          take_all (length bytes) bytes (omega arith),
        )
        (take_front bytes (drop (length bytes) (message_at q q.tail).content)) in
    let whole : ltb max_len (length bytes) ≡ false = ground arith in
    let mine : (not (want == 0) && not (from == want)) ≡ false = ground (arith, asked) in
    let waits : (q.head == (q.tail + 1) % 64) ≡ false = ground arith in
    rw (clip, free, low, high, here, waits, whole, mine, all)
      (refl, refl, refl, ap (λ i. (i + 1) % 64) (sym e))
