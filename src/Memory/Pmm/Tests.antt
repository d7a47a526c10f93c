-- ===== src/Memory/Pmm/Tests.antt =====
-- The physical pages of a machine with 64 MiB.
use dosfs.Prelude.{ℕ, ◌+◌, ◌*◌, ◌/◌, ◌<◌, ◌≤◌, ◌≡◌, ◌≢◌, ◌⊎◌, true, false, ◌==◌, if◌then◌else◌}
use dosfs.Memory.Pmm.{
  Pmm, rust_pmm_init, rust_pmm_alloc_page, rust_pmm_free_page, rust_pmm_get_free_count,
}
use dosfs.Memory.Pmm.Valid.{IsValid, rust_pmm_init-IsValid}
use dosfs.Memory.Pmm.Allocate.{is_used, rust_pmm_alloc_page_lem, rust_pmm_free_page_lem}

abbrev start : Pmm
start = rust_pmm_init 0x120000 0x4000000

start-IsValid : IsValid start
start-IsValid = rust_pmm_init-IsValid 0x120000 0x4000000

rust_pmm_alloc_page_lem_example :
    ((rust_pmm_alloc_page start ≡ (0, start))
      × (rust_pmm_get_free_count start ≡ 0)
      × ((j : ℕ) → j < start.total_pages → is_used start j ≡ true))
    ⊎ ((i : ℕ) × (p' : Pmm) × (rust_pmm_alloc_page start ≡ (i * 4096, p'))
        × IsValid p'
        × (i < start.total_pages)
        × (is_used start i ≡ false)
        × ((j : ℕ) → j < i → is_used start j ≡ true)
        × ((j : ℕ) → is_used p' j ≡ (if i == j then true else is_used start j))
        × (rust_pmm_get_free_count start ≡ rust_pmm_get_free_count p' + 1))
rust_pmm_alloc_page_lem_example = rust_pmm_alloc_page_lem start start-IsValid

abbrev page : ℕ
page = 0x3000

rust_pmm_free_page_lem_example :
    ((rust_pmm_free_page page start ≡ start)
      × ((page ≡ 0) ⊎ ((start.total_pages ≤ page / 4096) ⊎ (is_used start (page / 4096) ≡ false))))
    ⊎ ((page ≢ 0)
        × (page / 4096 < start.total_pages)
        × (is_used start (page / 4096) ≡ true)
        × IsValid (rust_pmm_free_page page start)
        × ((j : ℕ)
            → is_used (rust_pmm_free_page page start) j
              ≡ (if page / 4096 == j then false else is_used start j))
        × (rust_pmm_get_free_count (rust_pmm_free_page page start)
            ≡ rust_pmm_get_free_count start + 1))
rust_pmm_free_page_lem_example = rust_pmm_free_page_lem start page start-IsValid
