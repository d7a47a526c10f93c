-- ===== src/Tools/CpuSim/Words.antt =====
-- What the scanners of an instruction's words return.
use dosfs.Prelude.{ℕ, zero, suc, ◌≤◌, inl, inr, Bool, Bool-cases, List, [], ◌∷◌, length, arith}
use dosfs.Tools.CpuSim.{word}

-- A word of at most `n` bytes.
pub word-length : (stop : ℕ → Bool) (n : ℕ) (s : List ℕ) → length (word stop n s).0 ≤ n
unfolding word
word-length stop n [] = omega arith
word-length stop zero (c ∷ s) = omega arith
word-length stop (suc n) (c ∷ s) =
    let ih = word-length stop n s in
    elim (Bool-cases (stop c)) [ inl e ↦ rw e (omega arith) | inr e ↦ rw e (omega (arith, ih)) ]
