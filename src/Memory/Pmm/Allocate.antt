-- ===== src/Memory/Pmm/Allocate.antt =====
-- Giving out a page and taking it back.
use dosfs.Prelude.{
  ℕ, ◌+◌, ◌-◌, ◌*◌, ◌/◌, ◌%◌, ◌^◌, ◌≤◌, ◌<◌, ◌≡◌, ◌≢◌, ◌⊎◌, ◌∙◌, refl, sym, inl, inr, Bool, true,
  false, arith, ltb, ◌==◌, if◌then◌else◌, length, Bool-cases,
}
use dosfs.Memory.Pmm.{
  Pmm, bitmap_set, bitmap_clear, bitmap_test, count_used, rust_pmm_alloc_page, rust_pmm_free_page,
  rust_pmm_get_free_count,
}
use dosfs.Memory.Pmm.Bits.{
  test-set, test-clear, test-set_self, test-set_ne, test-clear_self, test-clear_ne,
  length-bitmap_set, length-bitmap_clear,
}
use dosfs.Memory.Pmm.Valid.{
  IsValid, count_used-le, count_used-but, count_used-all, first_free-cases,
}

-- page `i` is in use
abbrev pub is_used : Pmm → ℕ → Bool
is_used p i = bitmap_test i p.bitmap

-- In well-formed bits, an allocation gives out the lowest free page, which is in use from then on,
-- while no other page changes and one page fewer is free; when there is none, the result is NULL and
-- nothing changes.
pub rust_pmm_alloc_page_lem :
    (p : Pmm)
    → IsValid p
    → ((rust_pmm_alloc_page p ≡ (0, p))
        × (rust_pmm_get_free_count p ≡ 0)
        × ((j : ℕ) → j < p.total_pages → is_used p j ≡ true))
      ⊎ ((i : ℕ) × (p' : Pmm) × (rust_pmm_alloc_page p ≡ (i * 4096, p'))
          × IsValid p'
          × (i < p.total_pages)
          × (is_used p i ≡ false)
          × ((j : ℕ) → j < i → is_used p j ≡ true)
          × ((j : ℕ) → is_used p' j ≡ (if i == j then true else is_used p j))
          × (rust_pmm_get_free_count p ≡ rust_pmm_get_free_count p' + 1))
unfolding rust_pmm_alloc_page rust_pmm_get_free_count
rust_pmm_alloc_page_lem p v = elim (first_free-cases p.total_pages 0 p.bitmap) [
  | inl (e, all) ↦ inl (
    rw (rust_pmm_alloc_page, e) refl,
    omega (
      arith,
      v.counted,
      count_used-all p.total_pages p.bitmap (λ j lt. all j (omega arith) (omega (arith, lt))),
    ),
    λ j lt. all j (omega arith) (omega (arith, lt)),
  )
  | inr (i, e, lo, hi0, f, all) ↦
      let hi : i < p.total_pages = omega (arith, hi0) in
      let inside : i / 8 < length p.bitmap = omega (arith, v.room, v.bounded, hi) in
      let p' : Pmm = record p {
        bitmap = bitmap_set i p.bitmap;
        used_pages = (p.used_pages + 1) % 2 ^ 32;
      } in
      let set_one : bitmap_test i p'.bitmap ≡ true = test-set_self i p.bitmap inside in
      let more : count_used p.total_pages p'.bitmap ≡ count_used p.total_pages p.bitmap + 1 =
        count_used-but p.total_pages i p.bitmap p'.bitmap hi f set_one
          (λ j ne. test-set_ne i j p.bitmap inside ne) in
      let le = count_used-le p.total_pages p'.bitmap in
      inr (
        i,
        p',
        rw (rust_pmm_alloc_page, e) refl,
        record {
          room = length-bitmap_set i p.bitmap ∙ v.room;
          bounded = v.bounded;
          counted = omega (arith, more, v.counted, le, v.bounded);
        },
        hi,
        f,
        λ j lt. all j (omega arith) (omega (arith, lt)),
        λ j. test-set i j p.bitmap inside,
        omega (arith, more, v.counted, le, v.bounded),
      )
]

-- In well-formed bits, giving back an address that is not NULL and lies in a page in use frees that
-- page, while no other page changes and one page more is free; any other address changes nothing.
pub rust_pmm_free_page_lem :
    (p : Pmm) (page : ℕ)
    → IsValid p
    → ((rust_pmm_free_page page p ≡ p)
        × ((page ≡ 0) ⊎ ((p.total_pages ≤ page / 4096) ⊎ (is_used p (page / 4096) ≡ false))))
      ⊎ ((page ≢ 0)
          × (page / 4096 < p.total_pages)
          × (is_used p (page / 4096) ≡ true)
          × IsValid (rust_pmm_free_page page p)
          × ((j : ℕ)
              → is_used (rust_pmm_free_page page p) j
                ≡ (if page / 4096 == j then false else is_used p j))
          × (rust_pmm_get_free_count (rust_pmm_free_page page p) ≡ rust_pmm_get_free_count p + 1))
unfolding rust_pmm_free_page rust_pmm_get_free_count
rust_pmm_free_page_lem p page v = elim (Bool-cases (page == 0)) [
  | inl null ↦ inl (rw (rust_pmm_free_page, null) refl, inl (ground arith))
  | inr some_page ↦ elim (Bool-cases (ltb (page / 4096) p.total_pages)) [
    | inr far ↦ inl (rw (rust_pmm_free_page, some_page, far) refl, inr (inl (ground arith)))
    | inl near ↦ elim (Bool-cases (is_used p (page / 4096))) [
      | inr f ↦ inl (rw (rust_pmm_free_page, some_page, near, f) refl, inr (inr f))
      | inl t ↦
          let i = page / 4096 in
          let hi : i < p.total_pages = ground arith in
          let inside : i / 8 < length p.bitmap = omega (arith, v.room, v.bounded, hi) in
          let p' : Pmm = record p {
            bitmap = bitmap_clear i p.bitmap;
            used_pages = (p.used_pages + 2 ^ 32 - 1) % 2 ^ 32;
          } in
          let e : rust_pmm_free_page page p ≡ p' =
            rw (rust_pmm_free_page, some_page, near, t) refl in
          let fewer : count_used p.total_pages p.bitmap ≡ count_used p.total_pages p'.bitmap + 1 =
            count_used-but p.total_pages i p'.bitmap p.bitmap hi (test-clear_self i p.bitmap inside)
              t (λ j ne. sym (test-clear_ne i j p.bitmap inside ne)) in
          let le = count_used-le p.total_pages p.bitmap in
          inr (
            λ q. ground arith,
            hi,
            t,
            rw e record {
              room = length-bitmap_clear i p.bitmap ∙ v.room;
              bounded = v.bounded;
              counted = omega (arith, fewer, v.counted, le, v.bounded);
            },
            λ j. rw e (test-clear i j p.bitmap inside),
            rw e (omega (arith, fewer, v.counted, le, v.bounded)),
          )
    ]
  ]
]

-- Nothing from 256 MiB on is given back.
pub rust_pmm_free_page-far :
    (p : Pmm) (page : ℕ) → IsValid p → 2 ^ 28 ≤ page → rust_pmm_free_page page p ≡ p
rust_pmm_free_page-far p page v far = elim (rust_pmm_free_page_lem p page v) [
  | inl (same, why) ↦ same
  | inr (nonzero, near, used, valid, rest, count) ↦ absurd (omega (arith, near, v.bounded, far))
]
