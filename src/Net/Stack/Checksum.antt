-- ===== src/Net/Stack/Checksum.antt =====
-- The Internet checksum: a buffer with its checksum filled in has checksum 0.
use dosfs.Prelude.{
  ℕ, zero, suc, ◌+◌, ◌-◌, ◌*◌, ◌/◌, ◌%◌, ◌^◌, ◌≤◌, ◌<◌, ◌≡◌, ◌≢◌, refl, inl, inr, none, some, List,
  [], ◌∷◌, ◌++◌, arith, length, Option-cases, Bool-cases, ◌==◌,
}
use dosfs.Net.Stack.{word_sum, fold_sum, ip_checksum}

abbrev pub AreBytes : List ℕ → Type 0
AreBytes [] = Unit
AreBytes (b ∷ p) = (b < 256) × AreBytes p

pub word_sum-bound : (p : List ℕ) → AreBytes p → word_sum p ≤ 32768 * length p
unfolding word_sum
word_sum-bound [] h = omega arith
word_sum-bound (a ∷ []) h = omega (arith, h.0)
word_sum-bound (a ∷ b ∷ p) h = omega (arith, h.0, h.1.0, word_sum-bound p h.1.1)

-- Behind an even number of bytes, the words start anew.
pub word_sum-append :
    (p q : List ℕ) → length p % 2 ≡ 0 → word_sum (p ++ q) ≡ word_sum p + word_sum q
unfolding word_sum
word_sum-append [] q h = omega arith
word_sum-append (a ∷ []) q h = absurd (omega arith)
word_sum-append (a ∷ b ∷ p) q h = omega (arith, word_sum-append p q (omega arith))

-- What folding keeps: the remainder by 65535, and whether it is all zero.
pub record Folded (s r : ℕ) : Type 0 where
  pub small : r < 65536
  pub times : ℕ
  pub same : s ≡ r + 65535 * times
  pub zero_only : r ≡ 0 → s ≡ 0

fold_sum-Folded : (n s r : ℕ) → fold_sum n s ≡ some r → Folded s r
unfolding fold_sum
fold_sum-Folded zero s r h = record {
  small = ground arith;
  times = 0;
  same = ground arith;
  zero_only = λ e. ground arith;
}
fold_sum-Folded (suc n) s r h = elim (Bool-cases (s / 65536 == 0)) [
  | inl e ↦
      let whole : s ≡ r = ground arith in
      record {
        small = ground arith;
        times = 0;
        same = omega (arith, whole);
        zero_only = λ z. omega (arith, whole, z);
      }
  | inr e ↦
      let f = fold_sum-Folded n (s % 65536 + s / 65536) r (ground arith) in
      record {
        small = f.small;
        times = f.times + s / 65536;
        same = omega (arith, f.same);
        zero_only = λ z. omega (arith, f.zero_only z);
      }
]

-- A round of folding that is not needed changes nothing, and two leave at most 65536.
fold_once : (n s : ℕ) → fold_sum n (s % 65536 + s / 65536) ≢ none → fold_sum (suc n) s ≢ none
unfolding fold_sum
fold_once n s h e = ground arith

-- Three rounds are enough for a 32-bit sum.
pub fold_sum_ends : (s : ℕ) → s < 2 ^ 32 → fold_sum 3 s ≢ none
unfolding fold_sum
fold_sum_ends s h =
    let s1 : ℕ = s % 65536 + s / 65536 in
    let s2 : ℕ = s1 % 65536 + s1 / 65536 in
    let s3 : ℕ = s2 % 65536 + s2 / 65536 in
    let low : s3 / 65536 ≡ 0 = omega arith in
    fold_once 2 s (fold_once 1 s1 (fold_once 0 s2 (λ e. ground arith)))

-- A buffer of fewer than 65536 bytes, with two zero bytes behind an even number of others where the
-- checksum goes, has a checksum, and with the checksum put there the checksum of the buffer is 0.
pub ip_checksum_checks :
    (p q : List ℕ)
    → AreBytes (p ++ 0 ∷ 0 ∷ q)
    → length p % 2 ≡ 0
    → length (p ++ 0 ∷ 0 ∷ q) < 65536
    → (c : ℕ) × (ip_checksum (p ++ 0 ∷ 0 ∷ q) ≡ some c)
      × (ip_checksum (p ++ c % 256 ∷ c / 256 ∷ q) ≡ some 0)
unfolding ip_checksum word_sum
ip_checksum_checks p q bytes even short =
    let s : ℕ = word_sum (p ++ 0 ∷ 0 ∷ q) in
    let bound = word_sum-bound (p ++ 0 ∷ 0 ∷ q) bytes in
    let s_def = word_sum-append p (0 ∷ 0 ∷ q) even in
    elim (Option-cases (fold_sum 3 s)) [
      | inl e ↦ absurd (fold_sum_ends s (omega arith) e)
      | inr (r, e) ↦
          let f = fold_sum-Folded 3 s r e in
          let c : ℕ = 65535 - r in
          let t : ℕ = word_sum (p ++ c % 256 ∷ c / 256 ∷ q) in
          let t_def = word_sum-append p (c % 256 ∷ c / 256 ∷ q) even in
          let sum : t ≡ s + c = omega (arith, t_def, s_def, f.small) in
          elim (Option-cases (fold_sum 3 t)) [
            | inl e2 ↦ absurd (fold_sum_ends t (omega (arith, sum)) e2)
            | inr (r2, e2) ↦
                let g = fold_sum-Folded 3 t r2 e2 in
                let full : r2 ≡ 65535 = elim (Bool-cases (r2 == 0)) [
                  | inl z ↦
                      let none_left = g.zero_only (ground arith) in
                      absurd (omega (arith, none_left, sum, f.small, f.same))
                  | inr nz ↦
                      let some_left : r2 ≢ 0 = ground arith in
                      omega (arith, sum, f.small, f.same, g.small, g.same, some_left)
                ] in
                (c, rw (ip_checksum, e) refl, rw (ip_checksum, e2, full) refl)
          ]
    ]
