-- ===== src/Net/Stack/Queue.antt =====
-- The receive ring is a queue of at most 15 packets.
use dosfs.Prelude.{
  take, ltb, ◌≤◌, ℕ, zero, suc, true, false, ◌+◌, ◌-◌, ◌%◌, ◌<◌, ◌≡◌, ◌≢◌, refl, ap, sym, ◌∙◌, inl,
  inr, Option, none, some, List, [], ◌∷◌, ◌++◌, arith, Bool-cases, length, length-set, get_or, set,
  get_or-set_self, get_or-set_ne, if◌then◌else◌, ◌==◌,
}
use dosfs.Libc.{memcpy}
use dosfs.Libc.Copy.{take-memcpy, length-memcpy}
use dosfs.Net.Stack.{Ring, net_rx, net_take}

-- Each slot has 1514 bytes.
unfoldable pub Slots : List (List ℕ) → Type 0
Slots [] = Unit
Slots (slot ∷ slots) = (length slot ≡ 1514) × Slots slots

Slots-set :
    (l : List (List ℕ)) (i : ℕ) (slot : List ℕ)
    → Slots l
    → length slot ≡ 1514
    → Slots (set l i slot)
unfolding Slots
Slots-set [] i slot v w = v
Slots-set (x ∷ l) zero slot v w = (w, v.1)
Slots-set (x ∷ l) (suc i) slot v w = (v.0, Slots-set l i slot v.1 w)

Slots-get_or : (l : List (List ℕ)) (i : ℕ) → Slots l → i < length l → length (get_or l i []) ≡ 1514
unfolding Slots
Slots-get_or [] i v h = absurd (omega arith)
Slots-get_or (x ∷ l) zero v h = v.0
Slots-get_or (x ∷ l) (suc i) v h = Slots-get_or l i v.1 (omega arith)

pub record IsValid (r : Ring) : Type 0 where
  pub buffers : length r.rx_buf ≡ 16
  pub slots : Slots r.rx_buf
  pub lengths : length r.rx_len ≡ 16
  pub head_in : r.rx_head < 16
  pub tail_in : r.rx_tail < 16

-- the number of packets that wait
abbrev pub waiting : Ring → ℕ
waiting r = (r.rx_tail + 16 - r.rx_head) % 16

-- the packet in slot `i`: as many of the slot's bytes as its length says
abbrev pub packet_at : Ring → ℕ → List ℕ
packet_at r i = take (get_or r.rx_len i 0) (get_or r.rx_buf i [])

-- `n` packets from index `i` on
unfoldable pub packets : ℕ → ℕ → Ring → List (List ℕ)
packets zero i r = []
packets (suc n) i r = packet_at r i ∷ packets n ((i + 1) % 16) r

pub queue : Ring → List (List ℕ)
queue r = packets (waiting r) r.rx_head r

-- the write of `net_rx` at the tail
put : List ℕ → ℕ → Ring → Ring
put buf len r = record r {
  rx_buf = set r.rx_buf r.rx_tail (memcpy (get_or r.rx_buf r.rx_tail []) buf len);
  rx_len = set r.rx_len r.rx_tail len;
  rx_tail = (r.rx_tail + 1) % 16;
}

-- The packets before the tail stay, and the new one follows them.
packets-put :
    (n i : ℕ) (buf : List ℕ) (len : ℕ) (r : Ring)
    → IsValid r
    → i < 16
    → n < 16
    → (i + n) % 16 ≡ r.rx_tail
    → len ≤ 1514
    → len ≤ length buf
    → packets (suc n) i (put buf len r) ≡ packets n i r ++ (take len buf ∷ [])
unfolding packets put
packets-put zero i buf len r v lt small e fits whole =
    let here : i ≡ r.rx_tail = omega (arith, v.tail_in) in
    let b =
      get_or-set_self r.rx_buf r.rx_tail (memcpy (get_or r.rx_buf r.rx_tail []) buf len) []
        (omega (arith, v.buffers, v.tail_in)) in
    let l = get_or-set_self r.rx_len r.rx_tail len 0 (omega (arith, v.lengths, v.tail_in)) in
    let size = Slots-get_or r.rx_buf r.rx_tail v.slots (omega (arith, v.buffers, v.tail_in)) in
    let stored =
      take-memcpy (get_or r.rx_buf r.rx_tail []) buf len (omega (arith, size, fits)) whole in
    rw (here, b, l, stored) refl
packets-put (suc n) i buf len r v lt small e fits whole =
    let ne : r.rx_tail ≢ i = λ q. absurd (omega (arith, q, e)) in
    let b =
      get_or-set_ne r.rx_buf r.rx_tail i (memcpy (get_or r.rx_buf r.rx_tail []) buf len) [] ne in
    let l = get_or-set_ne r.rx_len r.rx_tail i len 0 ne in
    let rest =
      packets-put n ((i + 1) % 16) buf len r v (omega arith) (omega arith) (omega arith) fits
        whole in
    rw (b, l) (ap (λ t. packet_at r i ∷ t) rest)

put-IsValid : (buf : List ℕ) (len : ℕ) (r : Ring) → IsValid r → IsValid (put buf len r)
unfolding put
put-IsValid buf len r v =
    let old : List ℕ = get_or r.rx_buf r.rx_tail [] in
    let size = Slots-get_or r.rx_buf r.rx_tail v.slots (omega (arith, v.buffers, v.tail_in)) in
    record {
      buffers = length-set r.rx_buf r.rx_tail (memcpy old buf len) ∙ v.buffers;
      slots =
          Slots-set r.rx_buf r.rx_tail (memcpy old buf len) v.slots
            (length-memcpy old buf len ∙ size);
      lengths = omega (arith, v.lengths, length-set r.rx_len r.rx_tail len);
      head_in = v.head_in;
      tail_in = omega arith;
    }

-- On a well-formed ring, `net_rx` puts a packet of at most 1514 bytes, the size of a slot, at the end
-- of the queue, or drops it when 15 wait, and keeps the ring well-formed.
pub net_rx-queue :
    (buf : List ℕ) (len : ℕ) (r : Ring)
    → IsValid r
    → len ≤ 1514
    → len ≤ length buf
    → (r' : Ring) × (net_rx buf len r ≡ some r')
      × IsValid r'
      × (queue r' ≡ (if waiting r == 15 then queue r else queue r ++ (take len buf ∷ [])))
unfolding net_rx queue put
net_rx-queue buf len r v fits whole =
    let n : ℕ = waiting r in
    elim (Bool-cases ((r.rx_tail + 1) % 16 == r.rx_head)) [
      | inl e ↦
          let full : (n == 15) ≡ true = ground (arith, v.tail_in, v.head_in) in
          (r, rw (net_rx, e) refl, v, rw full refl)
      | inr e ↦
          let room : (n == 15) ≡ false = ground (arith, v.tail_in, v.head_in) in
          let small : ltb 1514 len ≡ false = ground arith in
          let more : ((r.rx_tail + 1) % 16 + 16 - r.rx_head) % 16 ≡ suc n =
            ground (arith, v.tail_in, v.head_in) in
          let at_tail : (r.rx_head + n) % 16 ≡ r.rx_tail = omega (arith, v.tail_in, v.head_in) in
          let next =
            packets-put n r.rx_head buf len r v v.head_in (omega arith) at_tail fits whole in
          (put buf len r, rw (net_rx, e, small) refl, put-IsValid buf len r v, rw (room, more) next)
    ]

packets-head : (n i h : ℕ) (r : Ring) → packets n i (record r { rx_head = h }) ≡ packets n i r
unfolding packets
packets-head zero i h r = refl
packets-head (suc n) i h r = ap (λ t. packet_at r i ∷ t) (packets-head n ((i + 1) % 16) h r)

nothing : (i : ℕ) (r : Ring) → packets 0 i r ≡ []
unfolding packets
nothing i r = refl

taken_first :
    (n i : ℕ) (r : Ring) → packets (suc n) i r ≡ packet_at r i ∷ packets n ((i + 1) % 16) r
unfolding packets
taken_first n i r = refl

-- What a round of `net_poll` does to the queue: there is no packet, or the first one leaves it.
pub Taken : Ring → Option (List ℕ × ℕ × Ring) → Type 0
Taken r none = queue r ≡ []
Taken r (some (buf, len, r')) = IsValid r' × (queue r ≡ take len buf ∷ queue r')

-- On a well-formed ring, a round of the second loop of `net_poll` takes the first packet of the queue,
-- and none when the queue is empty.
pub net_take-Taken : (r : Ring) → IsValid r → Taken r (net_take r)
unfolding net_take queue Taken
net_take-Taken r v = elim (Bool-cases (r.rx_head == r.rx_tail)) [
  | inl e ↦
      let empty : waiting r ≡ 0 = ground (arith, v.tail_in, v.head_in) in
      rw (net_take, e, empty) (nothing r.rx_head r)
  | inr e ↦
      let h : ℕ = (r.rx_head + 1) % 16 in
      let r' : Ring = record r { rx_head = h } in
      let one_less : waiting r ≡ suc (waiting r') = ground (arith, v.tail_in, v.head_in) in
      let valid : IsValid r' = record {
        buffers = v.buffers;
        slots = v.slots;
        lengths = v.lengths;
        head_in = omega arith;
        tail_in = v.tail_in;
      } in
      let first = taken_first (waiting r') r.rx_head r in
      rw (net_take, e)
        (
          valid,
          ap (λ n. packets n r.rx_head r) one_less
              ∙ first
              ∙ ap (λ t. packet_at r r.rx_head ∷ t) (sym (packets-head (waiting r') h h r)),
        )
]
