-- ===== src/Net/Stack/Tests.antt =====
-- The network stack at small inputs.
use dosfs.Prelude.{
  ℕ, zero, suc, some, take, length-replicate, List, false, ◌≡◌, refl, [], ◌∷◌, ◌++◌, arith,
  replicate, if◌then◌else◌, ◌==◌,
}
use dosfs.Net.Stack.{Ring, ArpEntry, net_rx}
use dosfs.Net.Stack.Queue.{Slots, IsValid, queue, waiting, net_rx-queue}

-- One packet waits in the last place.
abbrev wrapping : Ring
wrapping = record {
  rx_buf = replicate 16 (replicate 1514 0);
  rx_len = replicate 16 3;
  rx_head = 15;
  rx_tail = 0;
}

replicate-Slots : (n : ℕ) → Slots (replicate n (replicate 1514 0))
unfolding Slots
replicate-Slots zero = tt
replicate-Slots (suc n) = (length-replicate {A = ℕ} 1514 0, replicate-Slots n)

wrapping-IsValid : IsValid wrapping
wrapping-IsValid = record {
  buffers = refl;
  slots = replicate-Slots 16;
  lengths = refl;
  head_in = omega arith;
  tail_in = omega arith;
}

net_rx-queue_example :
    (r' : Ring) × (net_rx (1 ∷ 2 ∷ []) 2 wrapping ≡ some r')
    × IsValid r'
    × (queue r' ≡ (
        if waiting wrapping == 15
        then queue wrapping
        else queue wrapping ++ (take 2 (1 ∷ 2 ∷ []) ∷ [])))
net_rx-queue_example =
    net_rx-queue (1 ∷ 2 ∷ []) 2 wrapping wrapping-IsValid (omega arith) (omega arith)

abbrev cache : List ArpEntry
cache = replicate 8 (record { ip = replicate 4 0; mac = replicate 6 0; valid = false })
