-- ===== src/Memory/Heap/Valid.antt =====
-- A well-formed heap, and `kmalloc` where a free block fits.
use dosfs.Prelude.{
  ℕ, zero, suc, ◌+◌, ◌-◌, ◌^◌, ◌≤◌, ◌<◌, ◌≡◌, ◌≢◌, refl, some, List, ◌⊎◌, arith, ◌∙◌, ap, sym, ◌==◌,
  ltb, ◌||◌, false,
}
use dosfs.Memory.Pages.{Pages}
use dosfs.Memory.Heap.{
  Heap, heap_start, max_blocks, align4, u32, take_block, block_size, find_free_block, kmalloc,
}
use dosfs.Memory.Heap.Cells.{Cell, first, Layout, find_cell, alloc_cells, alloc_cells-Layout, Used}
use dosfs.Memory.Heap.Usage.{granted, le-granted, alloc_cells-Used, find_cell_apart}
use dosfs.Memory.Heap.Linked.{Linked, length-Layout, find_free_block_lem}
use dosfs.Memory.Heap.Malloc.{alloc_cells-Linked, first-alloc_cells, find_cell-Fits}

module _ (P : Pages) where
  -- The heap `h` holds the blocks `cs`.
  pub record IsValid (h : Heap P) (cs : List Cell) : Type 0 where
    pub head : h.head ≡ first cs
    pub linked : Linked h.words 0 cs
    pub layout : Layout heap_start cs h.current
    pub top : h.current ≤ 2 ^ 32

  pub search_lem :
      (h : Heap P) (cs : List Cell) (size : ℕ)
      → IsValid h cs
      → find_free_block max_blocks h.words h.head size ≡ some (find_cell size cs)
  search_lem h cs size v = rw v.head (
      find_free_block_lem max_blocks h.words size 0 heap_start cs h.current v.layout (omega arith)
        v.linked (omega (arith, length-Layout heap_start cs h.current v.layout)))

  kmalloc_at :
      (h : Heap P) (size p : ℕ)
      → 0 < size
      → size ≤ 0xFFFFFFFF - 24
      → p ≢ 0
      → find_free_block max_blocks h.words h.head (align4 size) ≡ some p
      → kmalloc P size h
        ≡ some (u32 (p + 20), record h { words = take_block h.words p (align4 size) })
  unfolding kmalloc
  kmalloc_at h size zero pos small ne e = absurd (ne refl)
  kmalloc_at h size (suc p) pos small ne e =
      let go : (size == 0 || ltb (0xFFFFFFFF - block_size - 4) size) ≡ false = ground arith in
      rw (go, e)

  -- `kmalloc` takes the first free block that fits, at `p`.
  abbrev pub Allocated : Heap P → List Cell → ℕ → Type 0
  Allocated h cs size =
      let p = find_cell (align4 size) cs in
      let h' = record h { words = take_block h.words p (align4 size) } in
      (kmalloc P size h ≡ some (p + 20, h'))
      × IsValid h' (alloc_cells (align4 size) cs)
      × (size ≤ granted (align4 size) cs)
      × ((a s : ℕ)
          → Used a s cs
          → Used a s (alloc_cells (align4 size) cs)
            × ((a + 20 + s ≤ p) ⊎ (p + 20 + granted (align4 size) cs ≤ a)))

  -- Where some free block fits a size of 1 to 2 ^ 32 - 25 bytes, `kmalloc` returns the payload of the
  -- first such block: the heap then holds the list of blocks after the allocation, the payload is at
  -- least as long as asked for, and it is apart from every block that was in use, each of which is
  -- still in use.
  pub kmalloc_fit :
      (h : Heap P) (cs : List Cell) (size : ℕ)
      → IsValid h cs
      → 0 < size
      → size ≤ 0xFFFFFFFF - 24
      → find_cell (align4 size) cs ≢ 0
      → Allocated h cs size
  kmalloc_fit h cs size v pos small found = (
    kmalloc_at h size (find_cell (align4 size) cs) pos small found (search_lem h cs (align4 size) v)
        ∙ ap
            (λ p. some (
              p,
              record h { words = take_block h.words (find_cell (align4 size) cs) (align4 size) },
            ))
            (let f =
                find_cell-Fits h.words 0 (align4 size) heap_start cs h.current v.layout v.linked
                  found in
              omega (arith, f.fits, f.high, v.top)),
    record {
      head = v.head ∙ sym (first-alloc_cells (align4 size) cs);
      linked =
          alloc_cells-Linked h.words 0 (align4 size) heap_start cs h.current (omega arith) v.top
            v.layout v.linked found;
      layout = alloc_cells-Layout (align4 size) heap_start cs h.current v.layout;
      top = v.top;
    },
    omega (arith, le-granted (align4 size) cs found),
    λ a s u. (
      alloc_cells-Used (align4 size) a s cs u,
      find_cell_apart (align4 size) a s heap_start cs h.current v.layout found u,
    ),
  )
