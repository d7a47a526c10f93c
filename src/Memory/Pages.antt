-- ===== src/Memory/Pages.antt =====
-- What the heap and the scheduler ask of src/memory/pmm.c and src/memory/vmm.c. A page is its
-- physical address, and 0 is NULL.
use dosfs.Prelude.{ℕ}

pub record Pages : Type 1 where
  pub Frames : Type 0
  pub alloc_page : Frames → ℕ × Frames
  pub free_page : ℕ → Frames → Frames
  -- the virtual address, the physical one, and the flags
  pub map_page : ℕ → ℕ → ℕ → Frames → Frames
  pub unmap_page : ℕ → Frames → Frames
