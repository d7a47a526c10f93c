-- ===== src/Net/Stack/Order.antt =====
-- Byte order.
use dosfs.Prelude.{ℕ, ◌^◌, ◌<◌, ◌≡◌, arith}
use dosfs.Net.Stack.{htons, htonl}

-- Turning a number round twice gives it back, for 16 and for 32 bits.
pub htons-htonl :
    (x y : ℕ) → x < 2 ^ 16 → y < 2 ^ 32 → (htons (htons x) ≡ x) × (htonl (htonl y) ≡ y)
unfolding htons htonl
htons-htonl x y h k = (omega arith, omega arith)
