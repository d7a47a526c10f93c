-- ===== src/Libc/Number/Tests.antt =====
-- Numbers as text, at small inputs.
use dosfs.Prelude.{none, some, ltb, ◌==◌, if◌then◌else◌, ◌-◌, ◌^◌, ◌≡◌, refl, [], ◌∷◌, arith}
use dosfs.Libc.Number.{itoa, uitoa, atoi, digits}
use dosfs.Libc.Number.RoundTrip.{atoi-itoa}

minus_one : itoa (2 ^ 32 - 1) 10 ≡ b'-' ∷ b'1' ∷ []
unfolding itoa digits
minus_one = refl

hex : uitoa 0xBEEF 16 ≡ b'b' ∷ b'e' ∷ b'e' ∷ b'f' ∷ []
unfolding uitoa digits
hex = refl

atoi-itoa_example :
    (atoi (uitoa 4294967254 10) ≡ (if ltb 4294967254 (2 ^ 31) then some 4294967254 else none))
    × (atoi (itoa 4294967254 10) ≡ (if 4294967254 == 2 ^ 31 then none else some 4294967254))
atoi-itoa_example = atoi-itoa 4294967254 (omega arith)
