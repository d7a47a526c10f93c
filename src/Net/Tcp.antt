-- ===== src/Net/Tcp.antt =====
-- src/net/net.c: the state of the one TCP connection, and what a segment does to it.
-- A segment that comes in is the list of its bytes; one that goes out is its flags, numbers and data.
-- The waiting loops, which poll the card until the timer runs out, are left out.
mod Stream
mod Tests
use dosfs.Prelude.{
  ℕ, ◌+◌, ◌-◌, ◌*◌, ◌/◌, ◌%◌, ◌^◌, Bool, not, ◌&&◌, ◌||◌, Option, none, some, List, [], ◌∷◌, ◌++◌,
  ltb, ◌==◌, if◌then◌else◌, get_or, take, drop, ℤ, pos, negsuc,
}
use dosfs.Libc.{memcpy}

pub data TcpState : Type 0 where
  closed syn_sent established fin_wait closing : TcpState

pub record Tcp : Type 0 where
  pub state : TcpState
  pub sport : ℕ
  pub dport : ℕ
  pub seq : ℕ
  pub ack : ℕ
  pub rx_buf : List ℕ
  pub rx_len : ℕ
  pub rx_read : ℕ

pub record Segment : Type 0 where
  pub flags : ℕ
  pub seq_num : ℕ
  pub ack_num : ℕ
  pub content : List ℕ

abbrev pub u32 : ℕ → ℕ
u32 n = n % 2 ^ 32

abbrev pub has_fin : ℕ → Bool
has_fin flags = flags % 2 == 1

abbrev pub has_syn : ℕ → Bool
has_syn flags = flags / 2 % 2 == 1

abbrev pub has_rst : ℕ → Bool
has_rst flags = flags / 4 % 2 == 1

abbrev pub has_ack : ℕ → Bool
has_ack flags = flags / 16 % 2 == 1

-- The state, and the segments that are sent, where the address is in the ARP cache: `net_send_ip`
-- refuses a segment whose frame would be longer than 1500 bytes, and its result is not looked at, so
-- the numbers go on all the same. `dlen` is below 65516, so that the segment's length does not wrap.
pub tcp_send_seg : ℕ → List ℕ → ℕ → Tcp → Tcp × List Segment
tcp_send_seg flags bytes dlen t =
    let seq1 = if has_syn flags then u32 (t.seq + 1) else t.seq in
    let seq2 = if has_fin flags then u32 (seq1 + 1) else seq1 in
    let seglen = (20 + dlen) % 2 ^ 16 in
    let sent : List Segment =
      if ltb 1500 ((14 + 20 + seglen) % 2 ^ 16)
      then []
      else record { flags = flags; seq_num = t.seq; ack_num = t.ack; content = take dlen bytes }
        ∷ [] in
    if ltb 1500 seglen then (t, []) else (record t { seq = u32 (seq2 + dlen) }, sent)

-- a 16-bit and a 32-bit field of a segment, turned round
abbrev pub field16 : List ℕ → ℕ → ℕ
field16 p i = get_or p i 0 * 256 + get_or p (i + 1) 0

abbrev pub field32 : List ℕ → ℕ → ℕ
field32 p i = field16 p i * 2 ^ 16 + field16 p (i + 2)

-- the data of a segment in an established connection: what fits is kept
pub receive_data : List ℕ → ℕ → ℕ → Tcp → Tcp
receive_data payload data_off dlen t =
    if (dlen == 0) || not (ltb (t.rx_len + dlen) 8192) then t else record t {
      rx_buf =
          take t.rx_len t.rx_buf ++ memcpy (drop t.rx_len t.rx_buf) (drop data_off payload) dlen;
      rx_len = t.rx_len + dlen;
    }

-- an established connection at a segment with the flags `flags` and `dlen` bytes
pub established_step : List ℕ → ℕ → ℕ → ℕ → Tcp → Tcp × List Segment
unfolding tcp_send_seg receive_data
established_step payload flags data_off dlen t =
    let t1 = receive_data payload data_off dlen t in
    let inc = if has_fin flags then dlen + 1 else dlen in
    let acked = tcp_send_seg 16 [] 0 (record t1 { ack = u32 (field32 payload 4 + inc) }) in
    let (t2, sent) = if inc == 0 then (t1, []) else acked in
    if has_rst flags
    then (record t { state = closed }, [])
    else if has_fin flags
    then (record t2 { state = closed }, sent)
    else (t2, sent)

pub tcp_process : List ℕ → ℕ → Tcp → Tcp × List Segment
unfolding established_step tcp_send_seg
tcp_process payload len t =
    let flags = get_or payload 13 0 in
    let data_off = get_or payload 12 0 / 16 % 16 * 4 in
    let dlen = (len + (2 ^ 16 - data_off)) % 2 ^ 16 in
    let opened =
      tcp_send_seg 16 [] 0 (record t { ack = u32 (field32 payload 4 + 1); state = established }) in
    let stepped = established_step payload flags data_off dlen t in
    if ltb len 20
    then (t, [])
    else if not (field16 payload 2 == t.sport)
    then (t, [])
    else elim t.state [
      | syn_sent ↦ if has_syn flags && has_ack flags then opened else (t, [])
      | established ↦ stepped
      | _ ↦ (t, [])
    ]

-- There is no result where the length of the segment wraps and its buffer is overrun.
pub tcp_send_data : List ℕ → ℕ → Tcp → Option (ℤ × Tcp × List Segment)
unfolding tcp_send_seg
tcp_send_data bytes len t =
    let (t', sent) = tcp_send_seg 24 bytes len t in
    elim t.state [
      | established ↦ if ltb 65515 len then none else some (pos len, t', sent)
      | _ ↦ some (negsuc 0, t, [])
    ]

-- What a round of `tcp_recv` hands over when bytes wait: how many, the bytes, and the state.
pub tcp_take : ℕ → Tcp → Option (ℕ × List ℕ × Tcp)
tcp_take max t =
    let avail = t.rx_len - t.rx_read in
    let n = if ltb max avail then max else avail in
    if not (ltb t.rx_read t.rx_len)
    then none
    else some (n, take n (drop t.rx_read t.rx_buf), record t { rx_read = t.rx_read + n })
