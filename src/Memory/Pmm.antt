-- ===== src/Memory/Pmm.antt =====
-- rust/src/pmm.rs behind src/memory/pmm.c: the physical pages, a bit for each in 8192 bytes.
-- The end of the kernel, which the linker sets, is an argument. The interrupt flag that an
-- allocation clears and puts back is left out, and so is INITIALIZED, which nothing reads.
pub mod Bits
pub mod Valid
pub mod Allocate
mod Tests
use dosfs.Prelude.{
  ℕ, zero, suc, ◌+◌, ◌-◌, ◌*◌, ◌/◌, ◌%◌, ◌^◌, Bool, true, false, ◌&&◌, Option, none, some, List,
  ltb, ◌==◌, if◌then◌else◌, get_or, set, replicate, min,
}

pub record Pmm : Type 0 where
  pub bitmap : List ℕ
  pub total_pages : ℕ
  pub used_pages : ℕ

-- bit `k` of a number, by halving it `k` times
pub bit : ℕ → ℕ → ℕ
bit zero n = n % 2
bit (suc k) n = bit k (n / 2)

-- the number with `b` for its bit `k`: `n | 1 << k` for 1, `n & !(1 << k)` for 0
pub with_bit : ℕ → ℕ → ℕ → ℕ
with_bit zero b n = n / 2 * 2 + b
with_bit (suc k) b n = with_bit k b (n / 2) * 2 + n % 2

abbrev pub byte_of : List ℕ → ℕ → ℕ
byte_of bitmap i = get_or bitmap (i / 8) 0

-- The source writes behind the bitmap for a page that has no bit; nothing is written here.
pub bitmap_set : ℕ → List ℕ → List ℕ
unfolding with_bit
bitmap_set i bitmap = set bitmap (i / 8) (with_bit (i % 8) 1 (byte_of bitmap i))

pub bitmap_clear : ℕ → List ℕ → List ℕ
unfolding with_bit
bitmap_clear i bitmap = set bitmap (i / 8) (with_bit (i % 8) 0 (byte_of bitmap i))

pub bitmap_test : ℕ → List ℕ → Bool
unfolding bit
bitmap_test i bitmap = bit (i % 8) (byte_of bitmap i) == 1

-- The bits of `n` pages from page `i` on are set.
pub set_range : ℕ → ℕ → List ℕ → List ℕ
unfolding bitmap_set
set_range zero i bitmap = bitmap
set_range (suc n) i bitmap = set_range n (i + 1) (bitmap_set i bitmap)

-- the pages below `n` that are in use
pub count_used : ℕ → List ℕ → ℕ
unfolding bitmap_test
count_used zero bitmap = 0
count_used (suc n) bitmap = count_used n bitmap + (if bitmap_test n bitmap then 1 else 0)

pub rust_pmm_init : ℕ → ℕ → Pmm
unfolding set_range count_used
rust_pmm_init kernel_end total_memory =
    let tp = min 65536 (total_memory / 4096) in
    let reserved_pages = (kernel_end + 4095) % 2 ^ 32 / 4096 in
    let kernel = set_range reserved_pages 0 (replicate 8192 0) in
    let own = set_range ((8192 + 4095) / 4096) 0 kernel in
    let vga_start = 0xB8000 / 4096 in
    let vga_end = (0xB8000 + 80 * 25 * 2 + 4095) / 4096 in
    let bitmap = set_range (vga_end - vga_start) vga_start own in
    record { bitmap = bitmap; total_pages = tp; used_pages = count_used tp bitmap }

-- the first of `n` pages from page `i` on that is free
pub first_free : ℕ → ℕ → List ℕ → Option ℕ
unfolding bitmap_test
first_free zero i bitmap = none
first_free (suc n) i bitmap =
    let rest = first_free n (i + 1) bitmap in if bitmap_test i bitmap then rest else some i

pub rust_pmm_alloc_page : Pmm → ℕ × Pmm
unfolding first_free bitmap_set
rust_pmm_alloc_page p = elim (first_free p.total_pages 0 p.bitmap) [
  | none ↦ (0, p)
  | some i ↦ (
    i * 4096,
    record p { bitmap = bitmap_set i p.bitmap; used_pages = (p.used_pages + 1) % 2 ^ 32 },
  )
]

pub rust_pmm_free_page : ℕ → Pmm → Pmm
unfolding bitmap_test bitmap_clear
rust_pmm_free_page page p =
    let index = page / 4096 in
    if page == 0
    then p
    else if ltb index p.total_pages && bitmap_test index p.bitmap
    then record p {
      bitmap = bitmap_clear index p.bitmap;
      used_pages = (p.used_pages + 2 ^ 32 - 1) % 2 ^ 32;
    }
    else p

-- `saturating_sub`
pub rust_pmm_get_free_count : Pmm → ℕ
rust_pmm_get_free_count p = p.total_pages - p.used_pages

pub rust_pmm_get_total_count : Pmm → ℕ
rust_pmm_get_total_count p = p.total_pages

abbrev pub pmm_init : ℕ → ℕ → Pmm
pmm_init kernel_end total_memory = rust_pmm_init kernel_end total_memory

abbrev pub pmm_alloc_page : Pmm → ℕ × Pmm
pmm_alloc_page p = rust_pmm_alloc_page p

abbrev pub pmm_free_page : ℕ → Pmm → Pmm
pmm_free_page page p = rust_pmm_free_page page p

abbrev pub pmm_get_free_count : Pmm → ℕ
pmm_get_free_count p = rust_pmm_get_free_count p

abbrev pub pmm_get_total_count : Pmm → ℕ
pmm_get_total_count p = rust_pmm_get_total_count p
