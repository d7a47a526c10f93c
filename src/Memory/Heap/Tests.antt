-- ===== src/Memory/Heap/Tests.antt =====
-- The heap at work on small inputs, and its theorems there.
use dosfs.Prelude.{
  ℕ, ◌+◌, ◌-◌, ◌*◌, ◌^◌, ◌≡◌, ◌≢◌, refl, true, false, some, List, [], ◌∷◌, ◌++◌, inl, arith,
}
use dosfs.Memory.Pages.{Pages}
use dosfs.Memory.Heap.{Heap, heap_start, put_header, grow, kmalloc, kfree}
use dosfs.Memory.Heap.Cells.{Cell, cell, find_cell, alloc_cells, take_cell, free_cells, Used}
use dosfs.Memory.Heap.Usage.{footprint}
use dosfs.Memory.Heap.Valid.{IsValid, Allocated, kmalloc_fit}
use dosfs.Memory.Heap.Expand.{kmalloc-grow}
use dosfs.Memory.Heap.Release.{kfree_lem}
use dosfs.Memory.Heap.Wrap.{kmalloc_wraps}

-- Pages handed out one after the other, and never short.
abbrev plenty : Pages
plenty = record {
  Frames = ℕ;
  alloc_page = λ n. ((n + 1) * 4096, n + 1);
  free_page = λ p n. n;
  map_page = λ v p f n. n;
  unmap_page = λ v n. n;
}

-- One block of 1004 bytes.
abbrev one_block : ℕ → Heap plenty
one_block free = record {
  words = put_header (λ _. 0) heap_start 1004 free 0 0;
  head = heap_start;
  current = heap_start + 1024;
  frames = 0;
}

abbrev free_cell : List Cell
free_cell = cell heap_start 1004 true ∷ []

abbrev used_cell : List Cell
used_cell = cell heap_start 1004 false ∷ []

free_block-IsValid : IsValid plenty (one_block 1) free_cell
free_block-IsValid = record {
  head = refl;
  linked = omega arith;
  layout = omega arith;
  top = omega arith;
}

used_block-IsValid : IsValid plenty (one_block 0) used_cell
used_block-IsValid = record {
  head = refl;
  linked = omega arith;
  layout = omega arith;
  top = omega arith;
}

kmalloc_fit_example : Allocated plenty (one_block 1) free_cell 101
unfolding find_cell
kmalloc_fit_example =
    kmalloc_fit plenty (one_block 1) free_cell 101 free_block-IsValid (omega arith) (omega arith)
      (omega arith)

-- The request is rounded up to 104 bytes, and the rest of the block stays free.
split_cells : alloc_cells 104 free_cell ≡ cell heap_start 104 false ∷ cell 0x40007c 880 true ∷ []
unfolding alloc_cells take_cell
split_cells = refl

kmalloc-grow_example :
    (h' : Heap plenty) × (kmalloc plenty 500 (one_block 0) ≡ some (0x400414, h'))
    × IsValid plenty h' (used_cell ++ (cell 0x400400 500 false ∷ []))
unfolding find_cell grow
kmalloc-grow_example =
    kmalloc-grow plenty (one_block 0) used_cell 500 used_block-IsValid (omega arith) (omega arith)
      refl refl

kmalloc_wraps_example :
    (h' : Heap plenty) × (kmalloc plenty (2 ^ 32 - 100) (one_block 0) ≡ some (0x400414, h'))
    × (h'.current ≡ 0x400400)
    × (h'.frames ≡ 0)
kmalloc_wraps_example =
    kmalloc_wraps plenty (one_block 0) used_cell (2 ^ 32 - 100) used_block-IsValid (omega arith)
      (omega arith) (omega arith)

kfree_lem_example :
    IsValid plenty (kfree plenty (heap_start + 20) (one_block 0)) (free_cells heap_start used_cell)
    × ((a t : ℕ) → a ≢ heap_start → Used a t used_cell → Used a t (free_cells heap_start used_cell))
    × (footprint (free_cells heap_start used_cell) ≡ footprint used_cell)
kfree_lem_example =
    kfree_lem plenty (one_block 0) used_cell heap_start 1004 used_block-IsValid
      (inl (refl, refl, refl))
