-- ===== src/Net/Host/Header.antt =====
-- The packets that are sent have a right header.
use mathlib.Core.List.{append_assoc}
use dosfs.Prelude.{
  Bool-cases, inl, inr, ◌⊎◌, ◌≤◌, ltb, pos, negsuc, false, length-take, ◌^◌, length-append, take_at,
  drop_at, ℕ, ◌+◌, ◌/◌, ◌%◌, ◌<◌, ◌≡◌, ◌∙◌, refl, sym, ap, some, List, [], ◌∷◌, ◌++◌, arith, take,
  drop, length,
}
use dosfs.Net.Stack.{ip_checksum, arp_lookup}
use dosfs.Net.Stack.Checksum.{AreBytes, ip_checksum_checks}
use dosfs.Net.Host.{Host, ip_header, ip_frame, route, net_send_ip}

-- A frame to a card with the address `mac`: its IP header, without options, has the checksum 0 as a
-- receiver computes it, and behind the header come `len` bytes of the payload.
pub Checked : List ℕ → ℕ → List ℕ → List ℕ → Type 0
Checked mac len payload frame =
    (length frame ≡ 34 + len)
    × (take 6 frame ≡ mac)
    × (ip_checksum (take 20 (drop 14 frame)) ≡ some 0)
    × (drop 34 frame ≡ take len payload)

ip_frame-checks :
    (h : Host) (mac dst_ip : List ℕ) (proto : ℕ) (payload : List ℕ) (len : ℕ)
    → length mac ≡ 6
    → length h.our_mac ≡ 6
    → length dst_ip ≡ 4
    → AreBytes dst_ip
    → proto < 256
    → len ≤ 1466
    → len ≤ length payload
    → (frame : List ℕ) × (ip_frame h mac dst_ip proto payload len ≡ some frame)
      × Checked mac len payload frame
unfolding ip_frame ip_header Checked
ip_frame-checks h mac dst_ip proto payload len m6 o6 d4 db p l whole =
    let fits : ltb 1500 (14 + 20 + len) ≡ false = ground arith in
    let front : List ℕ =
      0x45 ∷ 0 ∷ (20 + len) / 256 % 256 ∷ (20 + len) % 256 ∷ 0 ∷ 0 ∷ 0 ∷ 0 ∷ 64 ∷ proto ∷ [] in
    let ends : List ℕ = 10 ∷ 0 ∷ 2 ∷ 15 ∷ dst_ip in
    let bytes : AreBytes (front ++ 0 ∷ 0 ∷ ends) = ground arith in
    let (c, before, after) = ip_checksum_checks front ends bytes refl (omega (arith, d4)) in
    let header : List ℕ = front ++ c % 256 ∷ c / 256 ∷ ends in
    let link : List ℕ = (mac ++ h.our_mac) ++ (8 ∷ 0 ∷ []) in
    let n14 : length link ≡ 14 =
      omega (
        arith,
        length-append (mac ++ h.our_mac) (8 ∷ 0 ∷ []),
        length-append mac h.our_mac,
        m6,
        o6,
      ) in
    let n20 : length header ≡ 20 = omega (arith, d4) in
    let rest : List ℕ = header ++ take len payload in
    let inner : drop 14 (link ++ rest) ≡ rest = drop_at 14 link rest n14 in
    let n34 : length (link ++ header) ≡ 34 = omega (arith, length-append link header, n14, n20) in
    let all : length (link ++ rest) ≡ 34 + len = omega (
      arith,
      length-append link rest,
      length-append header (take len payload),
      n14,
      n20,
      length-take len payload,
      whole,
    ) in
    let front_mac : link ++ rest ≡ mac ++ (h.our_mac ++ ((8 ∷ 0 ∷ []) ++ rest)) =
      append_assoc (mac ++ h.our_mac) (8 ∷ 0 ∷ []) rest
      ∙ append_assoc mac h.our_mac ((8 ∷ 0 ∷ []) ++ rest) in
    (
      link ++ rest,
      rw (ip_frame, fits, before) refl,
      (
        all,
        ap (take 6) front_mac ∙ take_at 6 mac (h.our_mac ++ ((8 ∷ 0 ∷ []) ++ rest)) m6,
        rw (inner, take_at 20 header (take len payload) n20) after,
        ap (drop 34) (sym (append_assoc link header (take len payload)))
            ∙ drop_at 34 (link ++ header) (take len payload) n34,
      ),
    )

-- The addresses of the cards have 6 bytes, the destination has 4, its route is in the cache with the
-- address of a card, and the payload holds the bytes to send. Then `net_send_ip` sends one frame for
-- up to 1466 bytes: to that card, with an IP header without options that has the checksum 0 as a
-- receiver computes it, and behind the header come the bytes. For more bytes, up to 65501, it returns
-- -1 and sends nothing.
pub net_send_ip-checks :
    (h : Host) (mac dst_ip : List ℕ) (proto : ℕ) (payload : List ℕ) (len : ℕ)
    → arp_lookup (route dst_ip) h.arp_cache ≡ some mac
    → length mac ≡ 6
    → length h.our_mac ≡ 6
    → length dst_ip ≡ 4
    → AreBytes dst_ip
    → proto < 256
    → len ≤ length payload
    → len < 65502
    → ((len ≤ 1466)
        × ((frame : List ℕ) × (net_send_ip dst_ip proto payload len h ≡ some (pos 0, frame ∷ []))
            × Checked mac len payload frame))
      ⊎ ((1466 < len) × (net_send_ip dst_ip proto payload len h ≡ some (negsuc 0, [])))
unfolding net_send_ip
net_send_ip-checks h mac dst_ip proto payload len known m6 o6 d4 db p whole word =
    elim (Bool-cases (ltb 1500 ((14 + 20 + len) % 2 ^ 16))) [
      | inl long ↦ inr (ground arith, rw (net_send_ip, known, long) refl)
      | inr short ↦
          let fits : len ≤ 1466 = ground arith in
          let (frame, e, checked) =
            ip_frame-checks h mac dst_ip proto payload len m6 o6 d4 db p fits whole in
          inl (fits, (frame, rw (net_send_ip, known, short, e) refl, checked))
    ]
