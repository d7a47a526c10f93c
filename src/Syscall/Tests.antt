-- ===== src/Syscall/Tests.antt =====
-- The calls at small inputs.
use dosfs.Prelude.{ℕ, ◌+◌, ◌<◌, ◌≡◌, refl, true, some, List, [], ◌∷◌, ◌++◌, arith}
use dosfs.Syscall.{validate_user_pointer, Bytes, sys_read}
use dosfs.Syscall.Buffer.{SameOutside, sys_read-Inside}

abbrev start : ℕ
start = 0x1000

abbrev zeros : Bytes
zeros a = 0

abbrev typed : List ℕ
typed = b'h' ∷ b'o' ∷ 8 ∷ b'i' ∷ []

accepted : validate_user_pointer 0x1000 16 ≡ true
unfolding validate_user_pointer
accepted = refl

sys_read-Inside_example :
    (n : ℕ) × (m' : Bytes) × (sys_read (typed ++ 10 ∷ []) 0x1000 16 zeros ≡ some (n, m'))
    × (n < 16)
    × (m' (0x1000 + n) ≡ 0)
    × SameOutside 0x1000 16 zeros m'
sys_read-Inside_example = sys_read-Inside typed [] 0x1000 16 zeros accepted (omega arith)
