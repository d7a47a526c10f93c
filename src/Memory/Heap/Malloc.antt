-- ===== src/Memory/Heap/Malloc.antt =====
-- `kmalloc` refines the allocation over the list of blocks.
use dosfs.Prelude.{
  ℕ, ◌+◌, ◌-◌, ◌^◌, ◌≤◌, ◌<◌, ◌≡◌, ◌≢◌, refl, true, false, inl, inr, ◌⊎◌, List, [], ◌∷◌, arith, leb,
  ◌&&◌, leb→le, Bool-cases,
}
use mathlib.Core.Path.{subst, sym}
use dosfs.Memory.Heap.{Words, write, block_magic, take_block}
use dosfs.Memory.Heap.Cells.{
  Cell, cell, end_of, first, Layout, Layout-le, find_cell, take_cell, alloc_cells,
}
use dosfs.Memory.Heap.Linked.{Header, Linked, Linked-frame}

module _ (m : Words) (p size : ℕ) (low : 24 ≤ p) (bound : p + 20 + m p ≤ 2 ^ 32)
    (next : (m (p + 8) ≡ 0) ⊎ (p + 20 + m p ≤ m (p + 8))) where
  -- The words that `take_block` leaves alone: those below the block, and those behind it but for the
  -- back link of the next block.
  take_block_outside :
      (a : ℕ)
      → size ≤ m p
      → (a < p) ⊎ ((p + 20 + m p ≤ a) × (a ≢ m (p + 8) + 12))
      → take_block m p size a ≡ m a
  unfolding take_block
  take_block_outside a fits out = ground arith

  module _ (split : size + 24 ≤ m p) where
    take_block-split :
        m (p + 16) ≡ block_magic
        → Header (take_block m p size) (cell p size false) (m (p + 12)) (p + 20 + size)
    unfolding take_block
    take_block-split k = (ground arith, ground arith, ground arith, ground arith, ground arith)

    take_block-new :
        Header (take_block m p size) (cell (p + 20 + size) (m p - size - 20) true) p (m (p + 8))
    unfolding take_block
    take_block-new = (ground arith, ground arith, ground arith, ground arith, ground arith)

    take_block-next : m (p + 8) ≢ 0 → take_block m p size (m (p + 8) + 12) ≡ p + 20 + size
    unfolding take_block
    take_block-next ne = ground arith

take_block-whole :
    (m : Words) (p size : ℕ)
    → 24 ≤ p
    → p + 20 + m p ≤ 2 ^ 32
    → size ≤ m p
    → m p < size + 24
    → take_block m p size ≡ write m (p + 4) 0
unfolding take_block
take_block-whole m p size low bound fits whole = ground arith

module _ (m : Words) (prev size lo : ℕ) (c : Cell) (hi : ℕ) (low : 24 ≤ lo) (top : hi ≤ 2 ^ 32)
    (fits : size ≤ c.size) where
  take_whole :
      (cs : List Cell)
      → Layout lo (c ∷ cs) hi
      → Linked m prev (c ∷ cs)
      → c.size < size + 24
      → Linked (take_block m c.addr size) prev (cell c.addr c.size false ∷ cs)
  take_whole cs l k whole =
      let behind : end_of c ≤ hi = Layout-le (end_of c) cs hi l.1 in
      subst (λ w. Linked w prev (cell c.addr c.size false ∷ cs))
        (sym
          (take_block-whole m c.addr size (omega arith) (omega arith) (omega arith) (omega arith)))
        (
          ground arith,
          Linked-frame m (write m (c.addr + 4) 0) c.addr (end_of c) cs hi l.1 (λ a h. ground arith)
              k.1,
        )

  take_split :
      (cs : List Cell)
      → Layout lo (c ∷ cs) hi
      → Linked m prev (c ∷ cs)
      → size + 24 ≤ c.size
      → Linked
          (take_block m c.addr size)
          prev
          (cell c.addr size false ∷ cell (c.addr + 20 + size) (c.size - size - 20) true ∷ cs)
  take_split [] l k split =
      let high : end_of c ≤ 2 ^ 32 = omega arith in
      ground (
        arith,
        take_block-split m c.addr size (omega arith) (omega arith) (ground arith) (omega arith)
            (k.0.4),
        take_block-new m c.addr size (omega arith) (omega arith) (ground arith) (omega arith),
      )
  take_split (d ∷ ds) l k split =
      let high : end_of d ≤ hi = Layout-le (end_of d) ds hi l.1.1 in
      let next : (m (c.addr + 8) ≡ 0) ⊎ (c.addr + 20 + m c.addr ≤ m (c.addr + 8)) =
        inr (omega arith) in
      let same = take_block_outside m c.addr size (omega arith) (omega arith) next in
      let split' : size + 24 ≤ m c.addr = omega arith in
      let s1 = take_block-split m c.addr size (omega arith) (omega arith) next split' k.0.4 in
      let s2 = take_block-new m c.addr size (omega arith) (omega arith) next split' in
      let s3 = take_block-next m c.addr size (omega arith) (omega arith) next split' in
      (
        omega arith,
        (
          omega arith,
          (
            ground
                (arith, s3, same d.addr, same (d.addr + 4), same (d.addr + 8), same (d.addr + 16)),
            Linked-frame m (take_block m c.addr size) d.addr (end_of d) ds hi l.1.1
                (λ a h. same a (omega arith) (inr (omega arith, omega arith))) k.1.1,
          ),
        ),
      )

  take_cell-Linked :
      (cs : List Cell)
      → Layout lo (c ∷ cs) hi
      → Linked m prev (c ∷ cs)
      → Linked (take_block m c.addr size) prev (take_cell size c cs)
  unfolding take_cell
  take_cell-Linked cs l k = elim (Bool-cases (leb (size + 24) c.size)) [
    | inl e ↦ rw e (take_split cs l k (leb→le _ _ e))
    | inr e ↦ rw e (take_whole cs l k (ground arith))
  ]

pub first-alloc_cells : (size : ℕ) (cs : List Cell) → first (alloc_cells size cs) ≡ first cs
unfolding alloc_cells take_cell
first-alloc_cells size [] = refl
first-alloc_cells size (c ∷ cs) = ground arith

-- The header that the search stops at.
pub record Fits (m : Words) (size lo hi p : ℕ) : Type 0 where
  pub low : lo ≤ p
  pub fits : size ≤ m p
  pub high : p + 20 + m p ≤ hi
  pub next : (m (p + 8) ≡ 0) ⊎ (p + 20 + m p ≤ m (p + 8))

pub find_cell-Fits :
    (m : Words) (prev size lo : ℕ) (cs : List Cell) (hi : ℕ)
    → Layout lo cs hi
    → Linked m prev cs
    → find_cell size cs ≢ 0
    → Fits m size lo hi (find_cell size cs)
unfolding find_cell
find_cell-Fits m prev size lo [] hi l k found = absurd (found refl)
find_cell-Fits m prev size lo (c ∷ []) hi l k found = ground arith
find_cell-Fits m prev size lo (c ∷ d ∷ ds) hi l k found = ground (
  arith,
  Layout-le (end_of c) (d ∷ ds) hi l.1,
  find_cell-Fits m c.addr size (end_of c) (d ∷ ds) hi l.1 k.1,
)

-- Taking the block that `find_free_block` returns carries out the allocation on the list.
pub alloc_cells-Linked :
    (m : Words) (prev size lo : ℕ) (cs : List Cell) (hi : ℕ)
    → 24 ≤ lo
    → hi ≤ 2 ^ 32
    → Layout lo cs hi
    → Linked m prev cs
    → find_cell size cs ≢ 0
    → Linked (take_block m (find_cell size cs) size) prev (alloc_cells size cs)
unfolding alloc_cells find_cell
alloc_cells-Linked m prev size lo [] hi low top l k found = absurd (found refl)
alloc_cells-Linked m prev size lo (c ∷ cs) hi low top l k found =
    elim (Bool-cases (c.free && leb size c.size)) [
      | inl e ↦ rw e (take_cell-Linked m prev size lo c hi low top (ground arith) cs l k)
      | inr e ↦ rw e (
          let found' : find_cell size cs ≢ 0 = ground arith in
          let f = find_cell-Fits m c.addr size (end_of c) cs hi l.1 k.1 found' in
          let same =
            take_block_outside m (find_cell size cs) size (omega (arith, f.low))
              (omega (arith, f.high)) f.next in
          ground (
            arith,
            first-alloc_cells size cs,
            same c.addr,
            same (c.addr + 4),
            same (c.addr + 8),
            same (c.addr + 12),
            same (c.addr + 16),
            alloc_cells-Linked m c.addr size (end_of c) cs hi (omega arith) top l.1 k.1 found',
          ))
    ]
