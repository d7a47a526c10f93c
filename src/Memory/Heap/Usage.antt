-- ===== src/Memory/Heap/Usage.antt =====
-- Which blocks are in use before and after an allocation or a release.
use dosfs.Prelude.{
  ℕ, ◌+◌, ◌≤◌, ◌≡◌, ◌≢◌, true, ◌⊎◌, inl, inr, List, [], ◌∷◌, arith, leb, ◌&&◌, if◌then◌else◌, refl,
}
use dosfs.Memory.Heap.Cells.{
  Cell, cell, end_of, Layout, Layout-le, find_cell, take_cell, alloc_cells, absorb, absorb_into,
  free_after, free_cells, Used, Used-bounds,
}

pub take_cell-Used :
    (size a s : ℕ) (c : Cell) (cs : List Cell) → Used a s cs → Used a s (take_cell size c cs)
unfolding take_cell
take_cell-Used size a s c cs u = ground arith

-- An allocation leaves every block in use as it was.
pub alloc_cells-Used :
    (size a s : ℕ) (cs : List Cell) → Used a s cs → Used a s (alloc_cells size cs)
unfolding alloc_cells
alloc_cells-Used size a s [] u = u
alloc_cells-Used size a s (c ∷ cs) (inl e) = ground arith
alloc_cells-Used size a s (c ∷ cs) (inr u) =
    ground (arith, take_cell-Used size a s c cs u, alloc_cells-Used size a s cs u)

-- The bytes that the allocation at `p` gets.
unfoldable pub granted : ℕ → List Cell → ℕ
granted size [] = 0
granted size (c ∷ cs) =
    if c.free && leb size c.size
    then (if leb (size + 24) c.size then size else c.size)
    else granted size cs

pub le-granted : (size : ℕ) (cs : List Cell) → find_cell size cs ≢ 0 → size ≤ granted size cs
unfolding find_cell granted
le-granted size [] h = absurd (h refl)
le-granted size (c ∷ cs) h = ground (arith, le-granted size cs)

-- An allocation puts the block that it returns in use, with at least the size asked for.
pub find_cell-Used :
    (size : ℕ) (cs : List Cell)
    → find_cell size cs ≢ 0
    → Used (find_cell size cs) (granted size cs) (alloc_cells size cs)
unfolding find_cell granted alloc_cells take_cell
find_cell-Used size [] h = absurd (h refl)
find_cell-Used size (c ∷ cs) h = ground (arith, find_cell-Used size cs)

find_cell-bounds :
    (size lo : ℕ) (cs : List Cell) (hi : ℕ)
    → Layout lo cs hi
    → find_cell size cs ≢ 0
    → (lo ≤ find_cell size cs) × (find_cell size cs + 20 + granted size cs ≤ hi)
unfolding find_cell granted
find_cell-bounds size lo [] hi l h = absurd (h refl)
find_cell-bounds size lo (c ∷ cs) hi l h =
    ground (arith, Layout-le (end_of c) cs hi l.1, find_cell-bounds size (end_of c) cs hi l.1)

-- The block that an allocation returns overlaps no block in use.
pub find_cell_apart :
    (size a s lo : ℕ) (cs : List Cell) (hi : ℕ)
    → Layout lo cs hi
    → find_cell size cs ≢ 0
    → Used a s cs
    → (a + 20 + s ≤ find_cell size cs) ⊎ (find_cell size cs + 20 + granted size cs ≤ a)
unfolding find_cell granted
find_cell_apart size a s lo [] hi l h u = absurd u
find_cell_apart size a s lo (c ∷ cs) hi l h (inl e) =
    ground (arith, find_cell-bounds size (end_of c) cs hi l.1)
find_cell_apart size a s lo (c ∷ cs) hi l h (inr u) =
    ground
      (arith, Used-bounds a s (end_of c) cs hi l.1 u, find_cell_apart size a s (end_of c) cs hi l.1)

absorb-Used :
    (a s : ℕ) (c : Cell) (cs : List Cell) → c.free ≡ true → Used a s cs → Used a s (absorb c cs)
unfolding absorb
absorb-Used a s c [] f u = absurd u
absorb-Used a s c (d ∷ ds) f (inl e) = ground arith
absorb-Used a s c (d ∷ ds) f (inr u) = ground arith

absorb_into-Used :
    (a s : ℕ) (b : Cell) (cs : List Cell) → Used a s (b ∷ cs) → Used a s (absorb_into b cs)
unfolding absorb_into
absorb_into-Used a s b cs (inl e) = ground arith
absorb_into-Used a s b cs (inr u) = ground (arith, absorb-Used a s b cs)

free_after-Used :
    (p a s : ℕ) (b : Cell) (cs : List Cell)
    → a ≢ p
    → Used a s (b ∷ cs)
    → Used a s (free_after p b cs)
unfolding free_after
free_after-Used p a s b [] ne u = u
free_after-Used p a s b (c ∷ cs) ne (inl e) =
    ground (arith, absorb_into-Used a s b (absorb (cell c.addr c.size true) cs) (inl e))
free_after-Used p a s b (c ∷ cs) ne (inr (inl e)) =
    ground (arith, free_after-Used p a s c cs ne (inl e))
free_after-Used p a s b (c ∷ cs) ne (inr (inr u)) = ground (
  arith,
  absorb_into-Used a s b (absorb (cell c.addr c.size true) cs)
      (inr (absorb-Used a s (cell c.addr c.size true) cs refl u)),
  free_after-Used p a s c cs ne (inr u),
)

-- A release leaves every other block in use as it was.
pub free_cells-Used :
    (p a s : ℕ) (cs : List Cell) → a ≢ p → Used a s cs → Used a s (free_cells p cs)
unfolding free_cells
free_cells-Used p a s [] ne u = u
free_cells-Used p a s (c ∷ cs) ne (inl e) = ground (arith, free_after-Used p a s c cs ne (inl e))
free_cells-Used p a s (c ∷ cs) ne (inr u) = ground (
  arith,
  absorb-Used a s (cell c.addr c.size true) cs refl u,
  free_after-Used p a s c cs ne (inr u),
)

-- The bytes that the blocks take up, headers included.
unfoldable pub footprint : List Cell → ℕ
footprint [] = 0
footprint (c ∷ cs) = 20 + c.size + footprint cs

-- Splitting and merging lose no byte.
pub footprint-alloc_cells :
    (size : ℕ) (cs : List Cell) → footprint (alloc_cells size cs) ≡ footprint cs
unfolding alloc_cells take_cell footprint
footprint-alloc_cells size [] = refl
footprint-alloc_cells size (c ∷ cs) = ground (arith, footprint-alloc_cells size cs)

footprint-absorb :
    (c : Cell) (cs : List Cell) → footprint (absorb c cs) ≡ 20 + c.size + footprint cs
unfolding absorb footprint
footprint-absorb c [] = refl
footprint-absorb c (d ∷ ds) = ground arith

footprint-absorb_into :
    (b : Cell) (cs : List Cell) → footprint (absorb_into b cs) ≡ 20 + b.size + footprint cs
unfolding absorb_into footprint
footprint-absorb_into b cs = ground (arith, footprint-absorb b cs)

footprint-free_after :
    (p : ℕ) (b : Cell) (cs : List Cell) → footprint (free_after p b cs) ≡ 20 + b.size + footprint cs
unfolding free_after footprint
footprint-free_after p b [] = refl
footprint-free_after p b (c ∷ cs) = ground (
  arith,
  footprint-absorb (cell c.addr c.size true) cs,
  footprint-absorb_into b (absorb (cell c.addr c.size true) cs),
  footprint-free_after p c cs,
)

pub footprint-free_cells : (p : ℕ) (cs : List Cell) → footprint (free_cells p cs) ≡ footprint cs
unfolding free_cells footprint
footprint-free_cells p [] = refl
footprint-free_cells p (c ∷ cs) =
    ground (arith, footprint-absorb (cell c.addr c.size true) cs, footprint-free_after p c cs)
