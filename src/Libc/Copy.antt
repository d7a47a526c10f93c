-- ===== src/Libc/Copy.antt =====
-- What `memset`, `memcpy` and `strncpy` leave in the destination.
use dosfs.Prelude.{
  ℕ, zero, suc, ◌+◌, ◌-◌, ◌%◌, ◌≤◌, ◌<◌, ◌≡◌, refl, ap, List, [], ◌∷◌, ◌++◌, arith, length, take,
  drop, replicate, pos,
}
use dosfs.Libc.{memset, memcpy, memcmp, strncpy, after_byte}
use dosfs.Libc.Text.{IsText}

pub memset_lem :
    (d : List ℕ) (c n : ℕ) → n ≤ length d → memset d c n ≡ replicate n (c % 256) ++ drop n d
unfolding memset
memset_lem [] c zero h = refl
memset_lem [] c (suc n) h = absurd (omega arith)
memset_lem (x ∷ d) c zero h = refl
memset_lem (x ∷ d) c (suc n) h = ground (arith, memset_lem d c n)

pub memcpy_lem :
    (d src : List ℕ) (n : ℕ)
    → n ≤ length d
    → n ≤ length src
    → memcpy d src n ≡ take n src ++ drop n d
unfolding memcpy
memcpy_lem [] src zero h k = refl
memcpy_lem [] src (suc n) h k = absurd (omega arith)
memcpy_lem (x ∷ d) src zero h k = refl
memcpy_lem (x ∷ d) [] (suc n) h k = absurd (omega arith)
memcpy_lem (x ∷ d) (b ∷ src) (suc n) h k = ground (arith, memcpy_lem d src n)

pub length-memset : (d : List ℕ) (c n : ℕ) → length (memset d c n) ≡ length d
unfolding memset
length-memset [] c n = refl
length-memset (x ∷ d) c zero = refl
length-memset (x ∷ d) c (suc n) = omega (arith, length-memset d c n)

pub length-memcpy : (d src : List ℕ) (n : ℕ) → length (memcpy d src n) ≡ length d
unfolding memcpy
length-memcpy [] src n = refl
length-memcpy (x ∷ d) src zero = refl
length-memcpy (x ∷ d) [] (suc n) = refl
length-memcpy (x ∷ d) (b ∷ src) (suc n) = omega (arith, length-memcpy d src n)

pub length-strncpy : (d src : List ℕ) (n : ℕ) → length (strncpy d src n) ≡ length d
unfolding strncpy
length-strncpy [] src n = refl
length-strncpy (x ∷ d) src zero = refl
length-strncpy (x ∷ d) [] (suc n) = omega (arith, length-memset d 0 (suc n))
length-strncpy (x ∷ d) (c ∷ src) (suc n) =
    ground (arith, length-memset d 0 (suc n), length-strncpy d src n)

-- A text of at least `n` bytes: `strncpy` copies its first `n` bytes and no NUL.
pub strncpy_long :
    (d src : List ℕ) (n : ℕ)
    → IsText src
    → n ≤ length src
    → n ≤ length d
    → strncpy d src n ≡ take n src ++ drop n d
unfolding strncpy
strncpy_long [] src zero t h k = refl
strncpy_long [] src (suc n) t h k = absurd (omega arith)
strncpy_long (x ∷ d) src zero t h k = refl
strncpy_long (x ∷ d) [] (suc n) t h k = absurd (omega arith)
strncpy_long (x ∷ d) (c ∷ src) (suc n) t h k = ground (arith, strncpy_long d src n t.1)

-- A text of fewer than `n` bytes: `strncpy` writes the text and then NULs, `n + 1` bytes in all, one
-- more than its bound.
pub strncpy_short :
    (d src : List ℕ) (n : ℕ)
    → IsText src
    → length src < n
    → n < length d
    → strncpy d src n ≡ src ++ replicate (n + 1 - length src) 0 ++ drop (n + 1) d
unfolding strncpy
strncpy_short [] src n t h k = absurd (omega arith)
strncpy_short (x ∷ d) src zero t h k = absurd (omega arith)
strncpy_short (x ∷ d) [] (suc n) t h k = ground (arith, memset_lem d 0 (suc n))
strncpy_short (x ∷ d) (c ∷ src) (suc n) t h k = ground (arith, strncpy_short d src n t.1)

pub take-memcpy :
    (d src : List ℕ) (n : ℕ) → n ≤ length d → n ≤ length src → take n (memcpy d src n) ≡ take n src
unfolding memcpy
take-memcpy [] src zero h k = refl
take-memcpy [] src (suc n) h k = absurd (omega arith)
take-memcpy (x ∷ d) src zero h k = refl
take-memcpy (x ∷ d) [] (suc n) h k = absurd (omega arith)
take-memcpy (x ∷ d) (b ∷ src) (suc n) h k =
    ap (λ t. b ∷ t) (take-memcpy d src n (omega arith) (omega arith))

pub memcmp_self : (a : List ℕ) (n : ℕ) → memcmp a a n ≡ pos 0
unfolding memcmp
memcmp_self a zero = refl
memcmp_self a (suc n) = ground (arith, memcmp_self (after_byte a) n)
