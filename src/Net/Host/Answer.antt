-- ===== src/Net/Host/Answer.antt =====
-- Questions and answers of ARP.
use dosfs.Net.Tcp.{field16}
use dosfs.Prelude.{
  ◌<◌, ◌≤◌, ℕ, ◌+◌, ◌*◌, ◌/◌, ◌%◌, ◌≡◌, ◌≢◌, ◌⊎◌, ◌∙◌, refl, inl, inr, true, false, none, some,
  List, [], ◌∷◌, ◌++◌, arith, take, drop, length, Option-cases, Option, ltb, if◌then◌else◌,
}
use dosfs.Libc.{memcmp}
use dosfs.Net.Stack.{arp_cache_add, arp_lookup}
use dosfs.Net.Stack.Arp.{has_free, arp_cache_add-lookup}
use dosfs.Net.Host.{Host, our_ip, arp_frame, arp_request, arp_process}
use dosfs.Net.Host.Addresses.{four, six}

-- The fields of a packet are read as they were written.
read_frame :
    (op : ℕ) (to_mac m ip any target rest : List ℕ)
    → op < 65536
    → length to_mac ≡ 6
    → length m ≡ 6
    → length ip ≡ 4
    → length any ≡ 6
    → let p = arp_frame op to_mac m ip any target ++ rest in
      (field16 p 20 ≡ op)
      × (take 6 (drop 22 p) ≡ m)
      × (take 4 (drop 28 p) ≡ ip)
      × (drop 38 p ≡ target ++ rest)
unfolding arp_frame
read_frame op to_mac m ip any target rest word t6 m6 i4 n6 =
    let (a, b, c, d, e, f, is_mac) = six m m6 in
    let (a', b', c', d', e', f', is_to) = six to_mac t6 in
    let (p, q, r, s, t, u, is_any) = six any n6 in
    let (w, x, y, z, is_ip) = four ip i4 in
    let same : op / 256 % 256 * 256 + op % 256 ≡ op = omega (arith, word) in
    (
      rw (is_to, is_mac) same,
      rw (is_to, is_mac) refl,
      rw (is_to, is_mac, is_ip) refl,
      rw (is_to, is_mac, is_ip, is_any) refl,
    )

-- A host that has asked for an address and gets the answer puts it into the cache, where it is found
-- from then on if the cache knew the address or had an entry to spare, and waits no longer.
pub arp_process-learns :
    (h : Host) (m ip rest : List ℕ) (len : ℕ)
    → length h.our_mac ≡ 6
    → length m ≡ 6
    → length ip ≡ 4
    → 42 ≤ len
    → (arp_lookup ip h.arp_cache ≢ none) ⊎ (has_free h.arp_cache ≡ true)
    → let h' =
        (arp_process
          (arp_frame 2 h.our_mac m ip h.our_mac our_ip ++ rest)
          len
          (arp_request ip h).1).1 in
      (arp_lookup ip h'.arp_cache ≡ some m) × (h'.arp_waiting ≡ false) × (h'.arp_reply_mac ≡ m)
unfolding arp_process arp_request
arp_process-learns h m ip rest len o6 m6 i4 enough room =
    let (op, mac, from, target) =
      read_frame 2 h.our_mac m ip h.our_mac our_ip rest (omega arith) o6 m6 i4 o6 in
    let long : ltb len 42 ≡ false = ground arith in
    let known : elim (arp_lookup ip h.arp_cache) as (λ x. Option (List ℕ)) [
      | some old ↦ some m
      | none ↦ if has_free h.arp_cache then some m else none
    ]
        ≡ some m =
      elim (Option-cases (arp_lookup ip h.arp_cache)) [
        | inr (old, e) ↦ rw e refl
        | inl e ↦ elim room [ inl held ↦ absurd (held e) | inr free ↦ rw (e, free) refl ]
      ] in
    let found : arp_lookup ip (arp_cache_add ip m h.arp_cache) ≡ some m =
      arp_cache_add-lookup ip m h.arp_cache ∙ known in
    rw (arp_process, op, mac, from, long) (found, refl, refl)

-- A request for our address, in a packet of 42 bytes or more, is answered to its sender with our own
-- address, and the sender is put into the cache.
pub arp_process-answers :
    (h : Host) (m ip to_mac any rest : List ℕ) (len : ℕ)
    → length m ≡ 6
    → length ip ≡ 4
    → length to_mac ≡ 6
    → length any ≡ 6
    → 42 ≤ len
    → arp_process (arp_frame 1 to_mac m ip any our_ip ++ rest) len h ≡ (
      arp_frame 2 m h.our_mac our_ip m ip ∷ [],
      record h { arp_cache = arp_cache_add ip m h.arp_cache },
    )
unfolding arp_process memcmp
arp_process-answers h m ip to_mac any rest len m6 i4 t6 n6 enough =
    let (op, mac, from, target) =
      read_frame 1 to_mac m ip any our_ip rest (omega arith) t6 m6 i4 n6 in
    let long : ltb len 42 ≡ false = ground arith in
    rw (arp_process, op, mac, from, target, long) refl
