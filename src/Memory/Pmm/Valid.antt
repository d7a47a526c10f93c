-- ===== src/Memory/Pmm/Valid.antt =====
-- What every operation on the physical pages keeps.
use dosfs.Prelude.{
  ℕ, zero, suc, ◌+◌, ◌/◌, ◌%◌, ◌^◌, ◌≤◌, ◌<◌, ◌≡◌, ◌≢◌, ◌⊎◌, ◌∙◌, refl, inl, inr, true, false, none,
  some, List, arith, ◌==◌, replicate, length, length-replicate, Bool-cases,
}
use dosfs.Memory.Pmm.{Pmm, bitmap_test, set_range, count_used, first_free, rust_pmm_init}
use dosfs.Memory.Pmm.Bits.{length-set_range}

-- 8192 bytes of bits, at most a page for each bit, and the count of the pages in use.
pub record IsValid (p : Pmm) : Type 0 where
  pub room : length p.bitmap ≡ 8192
  pub bounded : p.total_pages ≤ 65536
  pub counted : p.used_pages ≡ count_used p.total_pages p.bitmap

pub count_used-le : (n : ℕ) (m : List ℕ) → count_used n m ≤ n
unfolding count_used
count_used-le zero m = omega arith
count_used-le (suc n) m = ground (arith, count_used-le n m)

-- Bitmaps that agree below `n` have the same count.
count_used-same :
    (n : ℕ) (m m' : List ℕ)
    → ((j : ℕ) → j < n → bitmap_test j m' ≡ bitmap_test j m)
    → count_used n m' ≡ count_used n m
unfolding count_used
count_used-same zero m m' same = refl
count_used-same (suc n) m m' same =
    let ih = count_used-same n m m' (λ j lt. same j (omega (arith, lt))) in
    rw (ih, same n (omega arith)) refl

-- Bitmaps that agree below `n` but for page `i` have counts that differ by that page.
pub count_used-but :
    (n i : ℕ) (m m' : List ℕ)
    → i < n
    → bitmap_test i m ≡ false
    → bitmap_test i m' ≡ true
    → ((j : ℕ) → i ≢ j → bitmap_test j m' ≡ bitmap_test j m)
    → count_used n m' ≡ count_used n m + 1
unfolding count_used
count_used-but zero i m m' lt f t same = absurd (omega (arith, lt))
count_used-but (suc n) i m m' lt f t same = elim (Bool-cases (i == n)) [
  | inl e ↦
      let last : n ≡ i = ground arith in
      let below = count_used-same n m m' (λ j l. same j (λ q. omega (arith, l, q, last))) in
      let t' : bitmap_test n m' ≡ true = rw last t in
      let f' : bitmap_test n m ≡ false = rw last f in rw (below, t', f') (omega arith)
  | inr e ↦
      let ne : i ≢ n = λ q. ground arith in
      let ih = count_used-but n i m m' (ground (arith, lt)) f t same in
      rw (ih, same n ne) (omega arith)
]

-- When all pages below `n` are in use, there are `n` of them.
pub count_used-all :
    (n : ℕ) (m : List ℕ) → ((j : ℕ) → j < n → bitmap_test j m ≡ true) → count_used n m ≡ n
unfolding count_used
count_used-all zero m all = refl
count_used-all (suc n) m all =
    let ih = count_used-all n m (λ j lt. all j (omega (arith, lt))) in
    rw (ih, all n (omega arith)) (omega arith)

-- What the search for a free page returns.
abbrev pub FreePage : ℕ → ℕ → List ℕ → Type 0
FreePage n i m =
    ((first_free n i m ≡ none) × ((j : ℕ) → i ≤ j → j < i + n → bitmap_test j m ≡ true))
    ⊎ ((k : ℕ) × (first_free n i m ≡ some k)
        × (i ≤ k)
        × (k < i + n)
        × (bitmap_test k m ≡ false)
        × ((j : ℕ) → i ≤ j → j < k → bitmap_test j m ≡ true))

pub first_free-cases : (n i : ℕ) (m : List ℕ) → FreePage n i m
unfolding first_free
first_free-cases zero i m = inl (refl, λ j lo hi. absurd (omega (arith, lo, hi)))
first_free-cases (suc n) i m = elim (Bool-cases (bitmap_test i m)) [
  | inr f ↦
      inr (i, rw f refl, omega arith, omega arith, f, λ j lo hi. absurd (omega (arith, lo, hi)))
  | inl t ↦
      let first : (j : ℕ) → i ≤ j → ((j ≡ i) ⊎ (i + 1 ≤ j)) = λ j lo. ground arith in
      elim (first_free-cases n (i + 1) m) [
        | inl (e, all) ↦ inl (
          rw t e,
          λ j lo hi. elim (first j lo) [ inl q ↦ rw q t | inr l ↦ all j l (omega (arith, hi)) ],
        )
        | inr (k, e, lo_k, hi_k, f, all) ↦ inr (
          k,
          rw t e,
          omega (arith, lo_k),
          omega (arith, hi_k),
          f,
          λ j lo hi. elim (first j lo) [ inl q ↦ rw q t | inr l ↦ all j l hi ],
        )
      ]
]

-- `rust_pmm_init` makes well-formed bits, whatever the memory and the kernel.
pub rust_pmm_init-IsValid :
    (kernel_end total_memory : ℕ) → IsValid (rust_pmm_init kernel_end total_memory)
unfolding rust_pmm_init
rust_pmm_init-IsValid kernel_end total_memory =
    let reserved = (kernel_end + 4095) % 2 ^ 32 / 4096 in
    let kernel = set_range reserved 0 (replicate 8192 0) in
    record {
      room =
          length-set_range 1 184 (set_range 2 0 kernel)
          ∙ length-set_range 2 0 kernel
          ∙ length-set_range reserved 0 (replicate 8192 0)
          ∙ length-replicate {A = ℕ} 8192 0;
      bounded = omega arith;
      counted = refl;
    }
