-- ===== src/Net/Tcp/Tests.antt =====
-- A segment on a small connection.
use dosfs.Prelude.{ℕ, ◌≡◌, List, [], ◌∷◌, arith, refl, replicate, length-replicate}
use dosfs.Net.Tcp.{Tcp, established, tcp_process}
use dosfs.Net.Tcp.Stream.{IsValid, waiting, tcp_process-appends}

abbrev connection : Tcp
connection = record {
  state = established;
  sport = 0xC000;
  dport = 80;
  seq = 0x1001;
  ack = 7;
  rx_buf = replicate 8192 0;
  rx_len = 0;
  rx_read = 0;
}

-- from port 80 to port 0xC000, number 7, the data `hi`
abbrev segment : List ℕ
segment =
    0 ∷ 80 ∷ 0xC0 ∷ 0 ∷ 0 ∷ 0 ∷ 0 ∷ 7 ∷ 0 ∷ 0 ∷ 0 ∷ 0 ∷ 0x50 ∷ 0x10 ∷ 0x10 ∷ 0 ∷ 0 ∷ 0 ∷ 0 ∷ 0
    ∷ b'h' ∷ b'i' ∷ []

connection-IsValid : IsValid connection
connection-IsValid = record {
  room = length-replicate {A = ℕ} 8192 0;
  stored = omega arith;
  handed = omega arith;
}

tcp_process-appends_example :
    let t' = (tcp_process segment 22 connection).0 in
    IsValid t' × (waiting t' ≡ b'h' ∷ b'i' ∷ []) × (t'.ack ≡ 9)
tcp_process-appends_example =
    tcp_process-appends segment 22 connection connection-IsValid refl (omega arith) (omega arith)
      refl (omega arith) refl (omega arith) (omega arith)
