-- ===== src/Memory/Heap/Wrap.antt =====
-- Requests near 2 ^ 32 bytes.
use mathlib.Core.Path.{◌∙◌, ap}
use dosfs.Prelude.{ℕ, ◌+◌, ◌-◌, ◌/◌, ◌^◌, ◌≤◌, ◌<◌, ◌≡◌, some, List, arith}
use native.Mathlib.Decide.{ℕ_discrete}
use dosfs.Memory.Pages.{Pages}
use dosfs.Memory.Heap.{Heap, heap_start, align4, u32, grow, append_block, expand_heap, kmalloc}
use dosfs.Memory.Heap.Cells.{Cell, find_cell, Layout-le}
use dosfs.Memory.Heap.Valid.{IsValid, search_lem}
use dosfs.Memory.Heap.Malloc.{find_cell-Fits}
use dosfs.Memory.Heap.Expand.{kmalloc_expanded, append_block_lem}

module _ (P : Pages) where
  no_fit :
      (h : Heap P) (cs : List Cell) (size : ℕ)
      → IsValid P h cs
      → 2 ^ 32 - 4115 ≤ size
      → find_cell size cs ≡ 0
  no_fit h cs size v big = elim (ℕ_discrete (find_cell size cs) 0) [
    | yes e ↦ e
    | no ne ↦
        let f = find_cell-Fits h.words 0 size heap_start cs h.current v.layout v.linked ne in
        absurd (omega (arith, f.low, f.fits, f.high, v.top))
  ]

  no_pages :
      (h : Heap P) (size : ℕ)
      → 2 ^ 32 - 4115 ≤ size
      → size ≤ 2 ^ 32 - 24
      → expand_heap P size h ≡ append_block P h.current size h
  unfolding expand_heap grow
  no_pages h size big small =
      let none : u32 (u32 (20 + size) + 4096 - 1) / 4096 ≡ 0 = omega arith in rw none

  -- In a well-formed heap whose end leaves room for a header, a request for 4115 down to 25 bytes less
  -- than 2 ^ 32 succeeds: `kmalloc` returns an address at the end of the heap, having mapped no page
  -- for it.
  pub kmalloc_wraps :
      (h : Heap P) (cs : List Cell) (size : ℕ)
      → IsValid P h cs
      → h.current + 20 < 2 ^ 32
      → 2 ^ 32 - 4115 ≤ size
      → size ≤ 0xFFFFFFFF - 24
      → (h' : Heap P) × (kmalloc P size h ≡ some (h.current + 20, h'))
        × (h'.current ≡ h.current)
        × (h'.frames ≡ h.frames)
  kmalloc_wraps h cs size v room big small =
      let none_fits : find_cell (align4 size) cs ≡ 0 = no_fit h cs (align4 size) v (omega arith) in
      let (h', runs, done) =
        append_block_lem P h cs h.current (align4 size) v.head v.linked v.layout v.top in
      let low : heap_start ≤ h.current = Layout-le heap_start cs h.current v.layout in
      let ends =
        kmalloc_expanded P h h' size h.current (omega arith) small
          (search_lem P h cs (align4 size) v ∙ ap some none_fits)
          (no_pages h (align4 size) (omega arith) (omega arith) ∙ runs) (omega arith) in
      (h', ends ∙ ap (λ p. some (p, h')) (omega arith), done.current, done.frames)
