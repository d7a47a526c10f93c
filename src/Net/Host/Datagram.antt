-- ===== src/Net/Host/Datagram.antt =====
-- A datagram that is sent arrives.
use dosfs.Prelude.{
  ℕ, ◌+◌, ◌-◌, ◌*◌, ◌/◌, ◌%◌, ◌<◌, ◌≤◌, ◌≡◌, ◌∙◌, refl, sym, ap, true, false, some, List, ◌||◌,
  arith, ltb, ◌==◌, if◌then◌else◌, take, length, min, take-take, take_all,
}
use dosfs.Libc.{memcpy}
use dosfs.Libc.Copy.{take-memcpy}
use dosfs.Net.Host.{Host, datagram, udp_listen, udp_process, udp_take}

-- On a host that listens on a port, a datagram to that port with at most 504 bytes of data, which
-- is the most that `udp_send` sends, is handed over: as much of its data as the receiver has room for.
pub udp_take-process :
    (h : Host) (port src_port : ℕ) (bytes : List ℕ) (max : ℕ)
    → length h.udp_buf ≡ 1536
    → port < 65536
    → length bytes ≤ 504
    → (h' : Host) × (udp_take max (
          udp_process
            (datagram port src_port bytes (length bytes))
            (8 + length bytes)
            (udp_listen port h))
        ≡ some (take (min max (length bytes)) bytes, h'))
unfolding udp_take udp_process udp_listen datagram
udp_take-process h port src_port bytes max room word short =
    let n : ℕ = length bytes in
    let all : take n bytes ≡ bytes = take_all n bytes (omega arith) in
    let to_port : port / 256 % 256 * 256 + port % 256 ≡ port = omega (arith, word) in
    let size : (8 + n) / 256 % 256 * 256 + (8 + n) % 256 ≡ 8 + n = omega (arith, short) in
    let good : (ltb (8 + n) 8 || ltb (8 + n) 8 || ltb 1536 (8 + n - 8)) ≡ false =
      ground (arith, short) in
    let mine : (port == port) ≡ true = ground arith in
    let data_size : 8 + n - 8 ≡ n = omega arith in
    let clip : (if ltb max n then max else n) ≡ min max n = ground arith in
    let less : min (min max n) n ≡ min max n = omega arith in
    let stored : take n (memcpy h.udp_buf bytes n) ≡ take n bytes =
      take-memcpy h.udp_buf bytes n (omega (arith, room, short)) (omega arith) in
    let got : Host = record h {
      udp_port = port;
      udp_buf = memcpy h.udp_buf bytes n;
      udp_len = n;
      udp_got = true;
    } in
    let arrived : udp_process (datagram port src_port bytes n) (8 + n) (udp_listen port h) ≡ got =
      rw (udp_process, all, to_port, size, good, mine, data_size) refl in
    let held : take (min max n) (memcpy h.udp_buf bytes n) ≡ take (min max n) bytes =
      ap (λ k. take k (memcpy h.udp_buf bytes n)) (sym less)
      ∙ sym (take-take (min max n) n (memcpy h.udp_buf bytes n))
      ∙ ap (take (min max n)) (stored ∙ all) in
    (record got { udp_got = false }, rw arrived (rw (clip, held) refl))
