-- ===== src/Libc/Tests.antt =====
-- The C library on small inputs, and its theorems there.
use dosfs.Prelude.{ℕ, ◌≡◌, refl, List, [], ◌∷◌}
use dosfs.Libc.{strncpy, memset}

-- "ab", "aB"
abbrev ab : List ℕ
ab = b'a' ∷ b'b' ∷ []

abbrev ab_mixed : List ℕ
ab_mixed = b'a' ∷ b'B' ∷ []

abbrev ones : List ℕ
ones = 1 ∷ 1 ∷ 1 ∷ 1 ∷ 1 ∷ 1 ∷ []

overrun : strncpy ones ab 4 ≡ b'a' ∷ b'b' ∷ 0 ∷ 0 ∷ 0 ∷ 1 ∷ []
unfolding strncpy memset
overrun = refl
