-- ===== src/Net/Tcp/Stream.antt =====
-- The bytes of a connection arrive in order.
use dosfs.Prelude.{
  take_front, ℕ, zero, suc, ◌+◌, ◌-◌, ◌*◌, ◌/◌, ◌%◌, ◌^◌, ◌<◌, ◌≤◌, ◌≡◌, ◌∙◌, refl, sym, ap, inl,
  inr, true, false, List, [], ◌∷◌, ◌++◌, arith, ltb, ◌==◌, if◌then◌else◌, length, take, drop,
  get_or, length-append, length-take, length-drop, take_all, Bool-cases,
}
use dosfs.Libc.{memcpy}
use dosfs.Libc.Copy.{memcpy_lem}
use dosfs.Net.Tcp.{
  Tcp, established, receive_data, established_step, tcp_process, field16, field32, u32, has_fin,
  has_rst,
}

pub record IsValid (t : Tcp) : Type 0 where
  pub room : length t.rx_buf ≡ 8192
  pub stored : t.rx_len ≤ 8192
  pub handed : t.rx_read ≤ t.rx_len

-- the bytes that `tcp_recv` has not handed over yet
abbrev pub waiting : Tcp → List ℕ
waiting t = take (t.rx_len - t.rx_read) (drop t.rx_read t.rx_buf)

-- the flags and the data of a segment as `tcp_process` reads them
abbrev pub data_off_of : List ℕ → ℕ
data_off_of payload = get_or payload 12 0 / 16 % 16 * 4

take_past : (a b : List ℕ) (n : ℕ) → take (length a + n) (a ++ b) ≡ a ++ take n b
take_past [] b n = let e : 0 + n ≡ n = omega arith in rw e refl
take_past (x ∷ a) b n =
    let e : suc (length a) + n ≡ suc (length a + n) = omega arith in
    rw e (ap (λ y. x ∷ y) (take_past a b n))

drop_within : (a b : List ℕ) (n : ℕ) → n ≤ length a → drop n (a ++ b) ≡ drop n a ++ b
drop_within a b zero h = refl
drop_within [] b (suc n) h = absurd (omega arith)
drop_within (x ∷ a) b (suc n) h = drop_within a b n (omega arith)

take_nothing : (n : ℕ) → take {A = ℕ} n [] ≡ []
take_nothing zero = refl
take_nothing (suc n) = refl

drop-take : (l : List ℕ) (m n : ℕ) → m ≤ n → drop m (take n l) ≡ take (n - m) (drop m l)
drop-take l zero n h = let e : n - 0 ≡ n = omega arith in rw e refl
drop-take [] (suc m) zero h = absurd (omega arith)
drop-take [] (suc m) (suc n) h = sym (take_nothing (suc n - suc m))
drop-take (x ∷ l) (suc m) zero h = absurd (omega arith)
drop-take (x ∷ l) (suc m) (suc n) h =
    let e : suc n - suc m ≡ n - m = omega arith in rw e (drop-take l m n (omega arith))

-- What arrives goes behind what waits.
receive_data_lem :
    (payload : List ℕ) (off n : ℕ) (t : Tcp)
    → IsValid t
    → 0 < n
    → t.rx_len + n < 8192
    → n ≤ length (drop off payload)
    → IsValid (receive_data payload off n t)
      × (waiting (receive_data payload off n t) ≡ waiting t ++ take n (drop off payload))
unfolding receive_data
receive_data_lem payload off n t v h k enough =
    let some_bytes : (n == 0) ≡ false = ground (arith, h) in
    let fits : ltb (t.rx_len + n) 8192 ≡ true = ground (arith, k) in
    let D : List ℕ = drop off payload in
    let a : List ℕ = take t.rx_len t.rx_buf in
    let behind : List ℕ = drop t.rx_len t.rx_buf in
    let la : length a ≡ t.rx_len = omega (arith, length-take t.rx_len t.rx_buf, v.room) in
    let lb : length behind + t.rx_len ≡ 8192 =
      omega (arith, length-drop t.rx_len t.rx_buf, v.room) in
    let tn : List ℕ = take n D in
    let ln : length tn ≡ n = omega (arith, length-take n D) in
    let rest : List ℕ = drop n behind in
    let copied : memcpy behind D n ≡ tn ++ rest =
      memcpy_lem behind D n (omega (arith, lb, v.stored)) enough in
    let w : drop t.rx_read a ≡ waiting t = drop-take t.rx_buf t.rx_read t.rx_len v.handed in
    let lw : length (waiting t) ≡ t.rx_len - t.rx_read = omega (
      arith,
      length-take (t.rx_len - t.rx_read) (drop t.rx_read t.rx_buf),
      length-drop t.rx_read t.rx_buf,
      v.room,
      v.stored,
    ) in
    let X : List ℕ = tn ++ rest in
    let e1 : drop t.rx_read (a ++ X) ≡ waiting t ++ X =
      drop_within a X t.rx_read (omega (arith, la, v.handed)) ∙ ap (λ y. y ++ X) w in
    let e2 : t.rx_len + n - t.rx_read ≡ length (waiting t) + n = omega (arith, lw, v.handed) in
    let front : take n X ≡ tn = ap (λ m. take m X) (sym ln) ∙ take_front tn rest in
    rw (some_bytes, fits, copied)
      (
        record {
          room =
              omega
                (arith, length-append a X, length-append tn rest, length-drop n behind, la, lb, ln);
          stored = omega arith;
          handed = omega (arith, v.handed);
        },
        ap (λ y. take (t.rx_len + n - t.rx_read) y) e1
            ∙ ap (λ m. take m (waiting t ++ X)) e2
            ∙ take_past (waiting t) X n
            ∙ ap (λ y. waiting t ++ y) front,
      )

-- the 16-bit length of the data of a segment of `len` bytes
abbrev pub dlen_of : List ℕ → ℕ → ℕ
dlen_of payload len = (len + (2 ^ 16 - data_off_of payload)) % 2 ^ 16

-- whether two states hold the same bytes
abbrev pub SameBytes : Tcp → Tcp → Type 0
SameBytes t u = (u.rx_buf ≡ t.rx_buf) × (u.rx_len ≡ t.rx_len) × (u.rx_read ≡ t.rx_read)

SameBytes-IsValid : (t u : Tcp) → SameBytes t u → IsValid t → IsValid u × (waiting u ≡ waiting t)
SameBytes-IsValid t u (b, l, r) v = (
  record { room = rw b v.room; stored = rw l v.stored; handed = rw (l, r) v.handed },
  rw (b, l, r) refl,
)

-- the number of a segment's data, and of its FIN
abbrev pub taken : ℕ → ℕ → ℕ
taken flags n = if has_fin flags then n + 1 else n

established_step_lem :
    (payload : List ℕ) (flags off n : ℕ) (t : Tcp)
    → has_rst flags ≡ false
    → 0 < n
    → SameBytes (receive_data payload off n t) (established_step payload flags off n t).0
      × ((established_step payload flags off n t).0.ack ≡ u32 (field32 payload 4 + taken flags n))
unfolding established_step
established_step_lem payload flags off n t rst h = elim (Bool-cases (has_fin flags)) [
  | inl fin ↦
      let some_bytes : (n + 1 == 0) ≡ false = ground arith in
      rw (rst, fin, some_bytes) ((refl, refl, refl), refl)
  | inr fin ↦
      let some_bytes : (n == 0) ≡ false = ground arith in
      rw (rst, fin, some_bytes) ((refl, refl, refl), refl)
]

-- In an established connection, the data of a segment for its port, without RST and with its header inside it, is put behind the bytes that wait for `tcp_recv` if it fits the buffer, and the next acknowledgement is the number behind its data, or behind its FIN.
pub tcp_process-appends :
    (payload : List ℕ) (len : ℕ) (t : Tcp)
    → IsValid t
    → t.state ≡ established
    → 20 ≤ len
    → len < 2 ^ 16
    → length payload ≡ len
    → field16 payload 2 ≡ t.sport
    → has_rst (get_or payload 13 0) ≡ false
    → data_off_of payload < len
    → t.rx_len + (len - data_off_of payload) < 8192
    → let t' = (tcp_process payload len t).0 in
      IsValid t'
      × (waiting t' ≡ waiting t ++ drop (data_off_of payload) payload)
      × (t'.ack ≡ u32 (field32 payload 4 + taken (get_or payload 13 0) (len - data_off_of payload)))
unfolding tcp_process
tcp_process-appends payload len t v e big small whole port rst off fits =
    let flags : ℕ = get_or payload 13 0 in
    let o : ℕ = data_off_of payload in
    let n : (len + (2 ^ 16 - o)) % 2 ^ 16 ≡ len - o = omega (arith, off, small) in
    let long : ltb len 20 ≡ false = ground (arith, big) in
    let mine : (field16 payload 2 == t.sport) ≡ true = ground (arith, port) in
    let lo : length (drop o payload) ≡ len - o = omega (arith, length-drop o payload, whole) in
    let (valid, stream) =
      receive_data_lem payload o (len - o) t v (omega (arith, off)) fits (omega (arith, lo)) in
    let (same, acked) = established_step_lem payload flags o (len - o) t rst (omega (arith, off)) in
    let (valid', stream') =
      SameBytes-IsValid (receive_data payload o (len - o) t)
        (established_step payload flags o (len - o) t).0 same valid in
    let step : tcp_process payload len t ≡ established_step payload flags o (len - o) t =
      simp (long, mine, n, e) refl in
    let all : take (len - o) (drop o payload) ≡ drop o payload =
      take_all (len - o) (drop o payload) (omega (arith, lo)) in
    rw step (valid', stream' ∙ stream ∙ ap (λ y. waiting t ++ y) all, acked)
