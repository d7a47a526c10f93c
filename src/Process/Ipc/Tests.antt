-- ===== src/Process/Ipc/Tests.antt =====
-- A message through an empty queue.
use dosfs.Prelude.{ℕ, ◌≡◌, List, [], ◌∷◌, refl, inl, arith, replicate}
use dosfs.Process.Ipc.{Queue, empty_message, rust_ipc_send, rust_ipc_receive}
use dosfs.Process.Ipc.Order.{rust_ipc_receive-send}

abbrev no_messages : Queue
no_messages = record { messages = replicate 64 empty_message; head = 5; tail = 5 }

abbrev hi_text : List ℕ
hi_text = b'h' ∷ b'i' ∷ []

rust_ipc_receive-send_example :
    let (sent, q1) = rust_ipc_send 1 2 hi_text 2 no_messages in
    let (got, copied, q2) = rust_ipc_receive 0 10 q1 in
    (sent ≡ 2) × (got ≡ 2) × (copied ≡ hi_text) × (q2.head ≡ q2.tail)
rust_ipc_receive-send_example =
    rust_ipc_receive-send 1 2 0 10 hi_text no_messages refl (ground arith) refl refl (ground arith)
      (ground arith) (ground arith) (ground arith) (inl refl)
