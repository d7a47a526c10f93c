-- ===== src/Net/Host/Addresses.antt =====
-- Addresses by their bytes.
use dosfs.Prelude.{ℕ, ◌≡◌, refl, List, [], ◌∷◌, arith, length}

-- A list of four bytes, and one of six, as on the wire.
pub four : (l : List ℕ) → length l ≡ 4 → (a b c d : ℕ) × (l ≡ a ∷ b ∷ c ∷ d ∷ [])
four [] h = absurd (omega (arith, h))
four (a ∷ []) h = absurd (omega (arith, h))
four (a ∷ b ∷ []) h = absurd (omega (arith, h))
four (a ∷ b ∷ c ∷ []) h = absurd (omega (arith, h))
four (a ∷ b ∷ c ∷ d ∷ []) h = (a, b, c, d, refl)
four (a ∷ b ∷ c ∷ d ∷ e ∷ l) h = absurd (omega (arith, h))

pub six : (l : List ℕ) → length l ≡ 6 → (a b c d e f : ℕ) × (l ≡ a ∷ b ∷ c ∷ d ∷ e ∷ f ∷ [])
six [] h = absurd (omega (arith, h))
six (a ∷ []) h = absurd (omega (arith, h))
six (a ∷ b ∷ l) h =
    let (c, d, e, f, same) = four l (omega (arith, h)) in (a, b, c, d, e, f, rw same refl)
