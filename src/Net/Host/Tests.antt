-- ===== src/Net/Host/Tests.antt =====
-- A host that has just started.
use dosfs.Libc.{memcmp}
use dosfs.Net.Stack.{entry_for, arp_lookup}
use dosfs.Prelude.{
  ◌⊎◌, ◌≤◌, ◌<◌, true, pos, negsuc, ℕ, ◌+◌, ◌≡◌, refl, false, some, List, [], ◌∷◌, arith, take,
  length, replicate, length-replicate, min,
}
use dosfs.Net.Tcp.{closed}
use dosfs.Net.Host.{Host, route, net_send_ip, datagram, udp_listen, udp_process, udp_take}
use dosfs.Net.Host.Datagram.{udp_take-process}
use dosfs.Net.Host.Header.{Checked, net_send_ip-checks}

abbrev started : Host
started = record {
  our_mac = 0x52 ∷ 0x54 ∷ 0 ∷ 0x12 ∷ 0x34 ∷ 0x56 ∷ [];
  arp_cache = record { ip = replicate 4 0; mac = replicate 6 0; valid = false } ∷ [];
  arp_waiting = false;
  arp_reply_mac = replicate 6 0;
  ping_id = 0;
  ping_ok = false;
  icmp_recv_count = 0;
  last_icmp_type = 0;
  ts = record {
    state = closed;
    sport = 0;
    dport = 0;
    seq = 0;
    ack = 0;
    rx_buf = replicate 8192 0;
    rx_len = 0;
    rx_read = 0;
  };
  udp_buf = replicate 1536 0;
  udp_len = 0;
  udp_port = 0;
  udp_got = false;
}

abbrev router : List ℕ
router = 0x52 ∷ 0x55 ∷ 10 ∷ 0 ∷ 2 ∷ 2 ∷ []

abbrev bytes : List ℕ
bytes = 1 ∷ 2 ∷ 3 ∷ []

abbrev router_ip : List ℕ
router_ip = 10 ∷ 0 ∷ 2 ∷ 2 ∷ []

-- The router is in the cache.
abbrev connected : Host
connected = record started {
  arp_cache = record { ip = router_ip; mac = router; valid = true } ∷ [];
}

udp_take-process_example :
    (h' : Host) × (udp_take 2 (
        udp_process
          (datagram 5000 53 bytes (length bytes))
          (8 + length bytes)
          (udp_listen 5000 started))
      ≡ some (take (min 2 (length bytes)) bytes, h'))
udp_take-process_example =
    udp_take-process started 5000 53 bytes 2 (length-replicate {A = ℕ} 1536 0) (omega arith)
      (omega arith)

known : arp_lookup (route router_ip) connected.arp_cache ≡ some router
unfolding arp_lookup entry_for route memcmp
known = refl

net_send_ip-checks_example :
    ((3 ≤ 1466)
      × ((frame : List ℕ) × (net_send_ip router_ip 17 bytes 3 connected ≡ some (pos 0, frame ∷ []))
          × Checked router 3 bytes frame))
    ⊎ ((1466 < 3) × (net_send_ip router_ip 17 bytes 3 connected ≡ some (negsuc 0, [])))
net_send_ip-checks_example =
    net_send_ip-checks connected router router_ip 17 bytes 3 known refl refl refl
      (omega arith, (omega arith, (omega arith, (omega arith, tt)))) (omega arith) (omega arith)
      (omega arith)
