-- ===== src/Memory/Pmm/Bits.antt =====
-- Setting and clearing the bit of a page changes that bit alone.
use dosfs.Prelude.{
  ℕ, zero, suc, ◌+◌, ◌*◌, ◌/◌, ◌%◌, ◌≤◌, ◌<◌, ◌≡◌, ◌≢◌, ◌⊎◌, ◌∙◌, refl, ap, inl, inr, true, false,
  List, arith, ◌==◌, if◌then◌else◌, set, length, length-set, get_or-set_self, get_or-set_ne,
  Bool-cases,
}
use dosfs.Memory.Pmm.{bit, with_bit, byte_of, bitmap_set, bitmap_clear, bitmap_test, set_range}

bit-with_bit_self : (k b n : ℕ) → b < 2 → bit k (with_bit k b n) ≡ b
unfolding bit with_bit
bit-with_bit_self zero b n h = omega (arith, h)
bit-with_bit_self (suc k) b n h =
    let half : (with_bit k b (n / 2) * 2 + n % 2) / 2 ≡ with_bit k b (n / 2) = omega arith in
    rw half (bit-with_bit_self k b (n / 2) h)

bit-with_bit_ne : (k j b n : ℕ) → b < 2 → k ≢ j → bit j (with_bit k b n) ≡ bit j n
unfolding bit with_bit
bit-with_bit_ne zero zero b n h ne = absurd (ne refl)
bit-with_bit_ne zero (suc j) b n h ne =
    let half : (n / 2 * 2 + b) / 2 ≡ n / 2 = omega (arith, h) in rw half refl
bit-with_bit_ne (suc k) zero b n h ne = omega arith
bit-with_bit_ne (suc k) (suc j) b n h ne =
    let half : (with_bit k b (n / 2) * 2 + n % 2) / 2 ≡ with_bit k b (n / 2) = omega arith in
    rw half (bit-with_bit_ne k j b (n / 2) h (λ e. ne (ap suc e)))

-- the bit of page `j` after the bit of page `i` is written
written :
    (i j b : ℕ) (m : List ℕ)
    → b < 2
    → i / 8 < length m
    → bit (j % 8) (byte_of (set m (i / 8) (with_bit (i % 8) b (byte_of m i))) j)
      ≡ (if i == j then b else bit (j % 8) (byte_of m j))
written i j b m h inside = elim (Bool-cases (i / 8 == j / 8)) [
  | inr apart ↦
      let ne : i / 8 ≢ j / 8 = λ e. ground arith in
      let other : (i == j) ≡ false = ground arith in
      rw (other, get_or-set_ne m (i / 8) (j / 8) (with_bit (i % 8) b (byte_of m i)) 0 ne) refl
  | inl together ↦
      let byte : j / 8 ≡ i / 8 = ground arith in
      elim (Bool-cases (i == j)) [
        | inl same ↦
            let e : j ≡ i = ground arith in
            rw (same, e, get_or-set_self m (i / 8) (with_bit (i % 8) b (byte_of m i)) 0 inside)
              (bit-with_bit_self (i % 8) b (byte_of m i) h)
        | inr other ↦
            let ne : i % 8 ≢ j % 8 = λ e. ground arith in
            rw (other, byte, get_or-set_self m (i / 8) (with_bit (i % 8) b (byte_of m i)) 0 inside)
              (bit-with_bit_ne (i % 8) (j % 8) b (byte_of m i) h ne)
      ]
]

pub test-set :
    (i j : ℕ) (m : List ℕ)
    → i / 8 < length m
    → bitmap_test j (bitmap_set i m) ≡ (if i == j then true else bitmap_test j m)
unfolding bitmap_test bitmap_set
test-set i j m inside =
    rw (written i j 1 m (omega arith) inside)
      (elim (Bool-cases (i == j)) [ inl e ↦ rw e refl | inr e ↦ rw e refl ])

pub test-clear :
    (i j : ℕ) (m : List ℕ)
    → i / 8 < length m
    → bitmap_test j (bitmap_clear i m) ≡ (if i == j then false else bitmap_test j m)
unfolding bitmap_test bitmap_clear
test-clear i j m inside =
    rw (written i j 0 m (omega arith) inside)
      (elim (Bool-cases (i == j)) [ inl e ↦ rw e refl | inr e ↦ rw e refl ])

pub test-set_self : (i : ℕ) (m : List ℕ) → i / 8 < length m → bitmap_test i (bitmap_set i m) ≡ true
test-set_self i m inside =
    let same : (i == i) ≡ true = ground arith in rw (test-set i i m inside, same) refl

pub test-set_ne :
    (i j : ℕ) (m : List ℕ)
    → i / 8 < length m
    → i ≢ j
    → bitmap_test j (bitmap_set i m) ≡ bitmap_test j m
test-set_ne i j m inside ne =
    let other : (i == j) ≡ false = ground arith in rw (test-set i j m inside, other) refl

pub test-clear_self :
    (i : ℕ) (m : List ℕ) → i / 8 < length m → bitmap_test i (bitmap_clear i m) ≡ false
test-clear_self i m inside =
    let same : (i == i) ≡ true = ground arith in rw (test-clear i i m inside, same) refl

pub test-clear_ne :
    (i j : ℕ) (m : List ℕ)
    → i / 8 < length m
    → i ≢ j
    → bitmap_test j (bitmap_clear i m) ≡ bitmap_test j m
test-clear_ne i j m inside ne =
    let other : (i == j) ≡ false = ground arith in rw (test-clear i j m inside, other) refl

pub length-bitmap_set : (i : ℕ) (m : List ℕ) → length (bitmap_set i m) ≡ length m
unfolding bitmap_set
length-bitmap_set i m = length-set m (i / 8) (with_bit (i % 8) 1 (byte_of m i))

pub length-bitmap_clear : (i : ℕ) (m : List ℕ) → length (bitmap_clear i m) ≡ length m
unfolding bitmap_clear
length-bitmap_clear i m = length-set m (i / 8) (with_bit (i % 8) 0 (byte_of m i))

pub length-set_range : (n i : ℕ) (m : List ℕ) → length (set_range n i m) ≡ length m
unfolding set_range
length-set_range zero i m = refl
length-set_range (suc n) i m = length-set_range n (i + 1) (bitmap_set i m) ∙ length-bitmap_set i m

-- Setting bits clears none.
pub set-keeps :
    (i j : ℕ) (m : List ℕ)
    → i / 8 < length m
    → bitmap_test j m ≡ true
    → bitmap_test j (bitmap_set i m) ≡ true
set-keeps i j m inside h = elim (Bool-cases (i == j)) [
  | inl e ↦ rw (test-set i j m inside, e) refl
  | inr e ↦ rw (test-set i j m inside, e) h
]

pub test-set_range :
    (n i j : ℕ) (m : List ℕ)
    → i + n ≤ length m * 8
    → (bitmap_test j m ≡ true) ⊎ ((i ≤ j) × (j < i + n))
    → bitmap_test j (set_range n i m) ≡ true
unfolding set_range
test-set_range zero i j m room h = elim h [
  | inl t ↦ t
  | inr (lo, hi) ↦ absurd (omega (arith, lo, hi))
]
test-set_range (suc n) i j m room h =
    let inside : i / 8 < length m = omega (arith, room) in
    let m' = bitmap_set i m in
    let room' : i + 1 + n ≤ length m' * 8 = omega (arith, room, length-bitmap_set i m) in
    test-set_range n (i + 1) j m' room' (elim h [
      | inl t ↦ inl (set-keeps i j m inside t)
      | inr (lo, hi) ↦ elim (Bool-cases (i == j)) [
        | inl e ↦ inl (rw (test-set i j m inside, e) refl)
        | inr e ↦ inr (ground (arith, lo), omega (arith, hi))
      ]
    ])
