-- ===== src/Net/Stack.antt =====
-- src/net/net.c: byte order, the receive ring, checksums and the ARP cache.
-- A packet is the list of its bytes; 16-bit fields are read as x86 reads them.
mod Order
mod Queue
pub mod Checksum
pub mod Arp
mod Tests
use dosfs.Prelude.{
  ℕ, zero, suc, ◌+◌, ◌-◌, ◌*◌, ◌/◌, ◌%◌, ◌^◌, Bool, true, false, not, ◌&&◌, ◌||◌, Option, none,
  some, List, [], ◌∷◌, ◌++◌, ltb, leb, ◌==◌, if◌then◌else◌, get_or, set, replicate, take, drop,
  is_zero,
}
use dosfs.Libc.{memcpy, memcmp}

pub htons : ℕ → ℕ
htons x = x / 256 + x % 256 * 256

-- the four masks and shifts of `htonl`
pub htonl : ℕ → ℕ
htonl x = x / 2 ^ 24 % 256 + x / 2 ^ 16 % 256 * 256 + x / 256 % 256 * 2 ^ 16 + x % 256 * 2 ^ 24

-- `rx_buf` and `rx_len`, `rx_head` and `rx_tail`
pub record Ring : Type 0 where
  pub rx_buf : List (List ℕ)
  pub rx_len : List ℕ
  pub rx_head : ℕ
  pub rx_tail : ℕ

abbrev pub ring_size : ℕ
ring_size = 16

-- the bytes of a slot, `sizeof(rx_buf[0])`
abbrev pub slot_size : ℕ
slot_size = 1514

-- There is no result for a packet that does not fit its slot: the source writes on into the slots
-- that follow.
pub net_rx : List ℕ → ℕ → Ring → Option Ring
net_rx buf len r =
    let n = (r.rx_tail + 1) % ring_size in
    if n == r.rx_head
    then some r
    else if ltb slot_size len
    then none
    else some record r {
      rx_buf = set r.rx_buf r.rx_tail (memcpy (get_or r.rx_buf r.rx_tail []) buf len);
      rx_len = set r.rx_len r.rx_tail len;
      rx_tail = n;
    }

-- One round of the second loop of `net_poll`: the packet that is dispatched, and its length.
pub net_take : Ring → Option (List ℕ × ℕ × Ring)
net_take r =
    if r.rx_head == r.rx_tail
    then none
    else some (
      get_or r.rx_buf r.rx_head [],
      get_or r.rx_len r.rx_head 0,
      record r { rx_head = (r.rx_head + 1) % ring_size },
    )

-- The 16-bit words of a buffer, as x86 reads them, the last byte of an odd one alone.
pub word_sum : List ℕ → ℕ
word_sum [] = 0
word_sum (a ∷ []) = a
word_sum (a ∷ b ∷ p) = a + 256 * b + word_sum p

-- `while (sum >> 16) sum = (sum & 0xFFFF) + (sum >> 16);`
pub fold_sum : ℕ → ℕ → Option ℕ
fold_sum zero sum = if sum / 65536 == 0 then some sum else none
fold_sum (suc n) sum =
    let rest = fold_sum n (sum % 65536 + sum / 65536) in if sum / 65536 == 0 then some sum else rest

-- `len` is at most 65535, so the sum is below 2 ^ 31 and does not wrap.
pub ip_checksum : List ℕ → Option ℕ
unfolding word_sum fold_sum
ip_checksum buf = elim (fold_sum 3 (word_sum buf)) [ none ↦ none | some s ↦ some (65535 - s) ]

-- `arp_cache_t`
pub record ArpEntry : Type 0 where
  pub ip : List ℕ
  pub mac : List ℕ
  pub valid : Bool

-- `arp_cache[i].valid && memcmp(arp_cache[i].ip, ip, 4) == 0`
unfoldable pub entry_for : List ℕ → ArpEntry → Bool
entry_for ip e = e.valid && is_zero (memcmp e.ip ip 4)

-- the first loop of `arp_cache_add`; `none` when it finds no entry
pub update_entry : List ℕ → List ℕ → List ArpEntry → Option (List ArpEntry)
update_entry ip mac [] = none
update_entry ip mac (e ∷ es) =
    let rest = update_entry ip mac es in
    if entry_for ip e
    then some (record e { mac = mac } ∷ es)
    else elim rest [ none ↦ none | some es' ↦ some (e ∷ es') ]

-- the second loop
pub fill_entry : List ℕ → List ℕ → List ArpEntry → List ArpEntry
fill_entry ip mac [] = []
fill_entry ip mac (e ∷ es) =
    let rest = fill_entry ip mac es in
    if e.valid then e ∷ rest else record { ip = ip; mac = mac; valid = true } ∷ es

-- The addresses are 4 and 6 bytes long.
pub arp_cache_add : List ℕ → List ℕ → List ArpEntry → List ArpEntry
unfolding update_entry fill_entry
arp_cache_add ip mac es = elim (update_entry ip mac es) [
  | none ↦ fill_entry ip mac es
  | some es' ↦ es'
]

-- the loop of `arp_resolve` over the cache
unfoldable pub arp_lookup : List ℕ → List ArpEntry → Option (List ℕ)
arp_lookup ip [] = none
arp_lookup ip (e ∷ es) = let rest = arp_lookup ip es in if entry_for ip e then some e.mac else rest
