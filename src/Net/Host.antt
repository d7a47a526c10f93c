-- ===== src/Net/Host.antt =====
-- src/net/net.c: the packets of ARP, IP, ICMP and UDP, what comes in and what goes out.
-- A frame is the list of its bytes, and its 16-bit fields are read and written in the order of the
-- wire. The card's address is `our_mac`. A wait for an address that the cache does not hold polls the
-- card until the timer runs out; it is left out, and what would wait has no result here. The
-- segments that TCP sends go out through `tcp_send_seg`, and are listed as such.
mod Addresses
mod Datagram
mod Header
mod Answer
mod Tests
use dosfs.Prelude.{
  ℕ, zero, suc, ◌+◌, ◌-◌, ◌*◌, ◌/◌, ◌%◌, ◌^◌, Bool, true, false, not, ◌&&◌, ◌||◌, Option, none,
  some, List, [], ◌∷◌, ◌++◌, ltb, leb, ◌==◌, if◌then◌else◌, get_or, set, take, drop, replicate,
  length, is_zero, ℤ, pos, negsuc,
}
use dosfs.Libc.{memcpy, memcmp}
use dosfs.Net.Stack.{ArpEntry, Ring, arp_cache_add, arp_lookup, ip_checksum}
use dosfs.Net.Tcp.{Tcp, Segment, closed, field16, tcp_process}

pub record Host : Type 0 where
  pub our_mac : List ℕ
  pub arp_cache : List ArpEntry
  pub arp_waiting : Bool
  pub arp_reply_mac : List ℕ
  pub ping_id : ℕ
  pub ping_ok : Bool
  pub icmp_recv_count : ℕ
  pub last_icmp_type : ℕ
  pub ts : Tcp
  pub udp_buf : List ℕ
  pub udp_len : ℕ
  pub udp_port : ℕ
  pub udp_got : Bool

abbrev pub our_ip : List ℕ
our_ip = 10 ∷ 0 ∷ 2 ∷ 15 ∷ []

abbrev pub gateway : List ℕ
gateway = 10 ∷ 0 ∷ 2 ∷ 2 ∷ []

-- a 16-bit field in the order of the wire
abbrev pub wire16 : ℕ → List ℕ
wire16 n = n / 256 % 256 ∷ n % 256 ∷ []

-- The mask keeps three bytes whole and nothing of the fourth.
pub route : List ℕ → List ℕ
route dst_ip = if is_zero (memcmp dst_ip our_ip 3) then dst_ip else gateway

-- the 20 bytes of an IP header with a checksum in them
pub ip_header : ℕ → List ℕ → ℕ → ℕ → List ℕ
ip_header proto dst_ip len checksum =
    (((0x45 ∷ 0 ∷ []) ++ wire16 (20 + len)) ++ (0 ∷ 0 ∷ 0 ∷ 0 ∷ 64 ∷ proto ∷ []))
    ++ (checksum % 256 ∷ checksum / 256 ∷ (our_ip ++ dst_ip))

-- The frame that `net_send_ip` builds for a card. There is none for a frame that does not fit its
-- buffer of 1500 bytes: the source writes on behind the buffer.
pub ip_frame : Host → List ℕ → List ℕ → ℕ → List ℕ → ℕ → Option (List ℕ)
unfolding ip_header
ip_frame h mac dst_ip proto payload len =
    let built : Option (List ℕ) = elim (ip_checksum (ip_header proto dst_ip len 0)) [
      | none ↦ none
      | some c ↦ some (
          ((mac ++ h.our_mac) ++ (8 ∷ 0 ∷ []))
          ++ (ip_header proto dst_ip len c ++ take len payload))
    ] in
    if ltb 1500 (14 + 20 + len) then none else built

-- The result of a send, and the frame: none of it while the address would be waited for, or where the
-- 16 bits of the total length wrap and the buffer is overrun.
pub net_send_ip : List ℕ → ℕ → List ℕ → ℕ → Host → Option (ℤ × List (List ℕ))
unfolding route ip_frame
net_send_ip dst_ip proto payload len h = elim (arp_lookup (route dst_ip) h.arp_cache) [
  | none ↦ none
  | some mac ↦
      if ltb 1500 ((14 + 20 + len) % 2 ^ 16)
      then some (negsuc 0, [])
      else elim (ip_frame h mac dst_ip proto payload len) [
        | none ↦ none
        | some frame ↦ some (pos 0, frame ∷ [])
      ]
]

-- a buffer that `kmalloc` gives, or does not; without one the checksum is 0. `len` is below 65524, so
-- that the length of the sum does not wrap.
pub tcp_checksum : Bool → List ℕ → List ℕ → List ℕ → ℕ → Option ℕ
tcp_checksum memory src dst bytes len =
    if not memory
    then some 0
    else ip_checksum (((take 4 src ++ take 4 dst) ++ (0 ∷ 6 ∷ wire16 len)) ++ take len bytes)

-- an ARP packet in its frame: the operation, and the addresses of its sender and its target
pub arp_frame : ℕ → List ℕ → List ℕ → List ℕ → List ℕ → List ℕ → List ℕ
arp_frame op to_mac src_mac src_ip dst_mac dst_ip =
    ((to_mac ++ src_mac) ++ (8 ∷ 6 ∷ 0 ∷ 1 ∷ 8 ∷ 0 ∷ 6 ∷ 4 ∷ wire16 op))
    ++ (((src_mac ++ src_ip) ++ dst_mac) ++ dst_ip)

-- what `arp_resolve` sends for an address that the cache does not hold
pub arp_request : List ℕ → Host → List ℕ × Host
unfolding arp_frame
arp_request ip h = (
  arp_frame 1 (replicate 6 0xFF) h.our_mac our_ip (replicate 6 0) ip,
  record h { arp_waiting = true },
)

-- The frames that are sent, and the state.
pub arp_process : List ℕ → ℕ → Host → List (List ℕ) × Host
unfolding arp_frame
arp_process pkt len h =
    let op = field16 pkt 20 in
    let src_mac = take 6 (drop 22 pkt) in
    let src_ip = take 4 (drop 28 pkt) in
    let cache = arp_cache_add src_ip src_mac h.arp_cache in
    let reply = arp_frame 2 src_mac h.our_mac our_ip src_mac src_ip in
    if ltb len 42
    then ([], h)
    else if (op == 1) && is_zero (memcmp (drop 38 pkt) our_ip 4)
    then (reply ∷ [], record h { arp_cache = cache })
    else if (op == 2) && h.arp_waiting
    then ([], record h { arp_cache = cache; arp_reply_mac = src_mac; arp_waiting = false })
    else ([], h)

-- the answer to an echo request: its type and its checksum are written
pub echo_reply : List ℕ → ℕ → Option (List ℕ)
echo_reply payload len =
    let buf = set (set (set (take len payload) 0 0) 2 0) 3 0 in
    elim (ip_checksum buf) [ none ↦ none | some c ↦ some (set (set buf 2 (c % 256)) 3 (c / 256)) ]

pub icmp_process : Bool → List ℕ → ℕ → List ℕ → Host → Option (List (List ℕ) × Host)
unfolding echo_reply net_send_ip
icmp_process memory payload len src h =
    let type = get_or payload 0 0 in
    let id = get_or payload 4 0 + 256 * get_or payload 5 0 in
    let h1 = record h {
      icmp_recv_count = (h.icmp_recv_count + 1) % 2 ^ 32;
      last_icmp_type = type;
    } in
    let answered : Option (List (List ℕ) × Host) = elim (echo_reply payload len) [
      | none ↦ none
      | some buf ↦ elim (net_send_ip src 1 buf len h1) [
        | none ↦ none
        | some (r, frames) ↦ some (frames, h1)
      ]
    ] in
    if ltb len 8
    then some ([], h)
    else if (type == 0) && ((field16 payload 4 == h.ping_id) || (id == h.ping_id))
    then some ([], record h1 { ping_ok = true })
    else if (type == 8) && memory
    then answered
    else some ([], h1)

pub udp_process : List ℕ → ℕ → Host → Host
udp_process payload len h =
    let dport = field16 payload 2 in
    let dlen = field16 payload 4 in
    if ltb len 8 || ltb dlen 8 || ltb 1536 (dlen - 8)
    then h
    else if not h.udp_got && (dport == h.udp_port)
    then record h {
      udp_buf = memcpy h.udp_buf (drop 8 payload) (dlen - 8);
      udp_len = dlen - 8;
      udp_got = true;
    }
    else h

-- the datagram that `udp_send` builds
pub datagram : ℕ → ℕ → List ℕ → ℕ → List ℕ
datagram dst_port src_port bytes len =
    (((wire16 src_port ++ wire16 dst_port) ++ wire16 (8 + len)) ++ (0 ∷ 0 ∷ [])) ++ take len bytes

-- Where the 16 bits of the total wrap, the buffer of 512 bytes is overrun, and there is no result.
pub udp_send : List ℕ → ℕ → ℕ → List ℕ → ℕ → Host → Option (ℤ × List (List ℕ))
unfolding datagram net_send_ip
udp_send dst_ip dst_port src_port bytes len h =
    let total = (8 + len) % 2 ^ 16 in
    if ltb 512 total
    then some (negsuc 0, [])
    else if ltb 512 (8 + len)
    then none
    else net_send_ip dst_ip 17 (datagram dst_port src_port bytes len) total h

-- how `udp_recv` starts to listen
pub udp_listen : ℕ → Host → Host
udp_listen port h = record h { udp_port = port; udp_got = false }

-- What a round of `udp_recv` hands over, when a datagram has come: the bytes and the state.
pub udp_take : ℕ → Host → Option (List ℕ × Host)
udp_take max h =
    let n = if ltb max h.udp_len then max else h.udp_len in
    if not h.udp_got then none else some (take n h.udp_buf, record h { udp_got = false })

-- What a frame does: the frames and the segments that are sent, and the state.
pub dispatch : Bool → List ℕ → ℕ → Host → Option (List (List ℕ) × List Segment × Host)
unfolding arp_process icmp_process udp_process
dispatch memory pkt len h =
    let type = field16 pkt 12 in
    let proto = get_or pkt 23 0 in
    let payload = drop 34 pkt in
    let resolved = arp_process pkt len h in
    let echoed : Option (List (List ℕ) × List Segment × Host) =
      elim (icmp_process memory payload (len - 34) (take 4 (drop 26 pkt)) h) [
        | none ↦ none
        | some (frames, h') ↦ some (frames, [], h')
      ] in
    let (ts', sent) = tcp_process payload (len - 34) h.ts in
    if ltb len 14
    then some ([], [], h)
    else if type == 0x0806
    then some (resolved.0, [], resolved.1)
    else if not (type == 0x0800) || ltb len 34
    then some ([], [], h)
    else if proto == 1
    then echoed
    else if proto == 6
    then some ([], sent, record h { ts = ts' })
    else if proto == 17
    then some ([], [], udp_process payload (len - 34) h)
    else some ([], [], h)
