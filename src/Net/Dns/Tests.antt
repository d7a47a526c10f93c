-- ===== src/Net/Dns/Tests.antt =====
-- A host name.
use dosfs.Prelude.{◌≡◌, [], ◌∷◌, some, none, arith, refl, replicate}
use dosfs.Net.Dns.{dns_enc_name, dns_skip_name, encode, label}
use dosfs.Net.Dns.Names.{dns_skip-enc}

-- `a.bc`
dns_skip-enc_example :
    (dns_enc_name (b'a' ∷ b'.' ∷ b'b' ∷ b'c' ∷ []) ≡ some (1 ∷ b'a' ∷ 2 ∷ b'b' ∷ b'c' ∷ 0 ∷ []))
    × (dns_skip_name (1 ∷ b'a' ∷ 2 ∷ b'b' ∷ b'c' ∷ 0 ∷ 0 ∷ 1 ∷ []) ≡ some (0 ∷ 1 ∷ []))
dns_skip-enc_example = dns_skip-enc (b'a' ∷ []) ((b'b' ∷ b'c' ∷ []) ∷ []) (0 ∷ 1 ∷ []) (omega arith)

-- an empty label ends the name early
empty_label : dns_enc_name (b'.' ∷ b'a' ∷ []) ≡ some (0 ∷ 1 ∷ b'a' ∷ 0 ∷ [])
unfolding dns_enc_name encode label
empty_label = refl

long_label : dns_enc_name (replicate 64 b'a') ≡ none
unfolding dns_enc_name encode label
long_label = refl
