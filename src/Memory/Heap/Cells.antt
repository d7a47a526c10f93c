-- ===== src/Memory/Heap/Cells.antt =====
-- The heap as its blocks in list order, and what the allocator does to that list.
use dosfs.Prelude.{
  ℕ, ◌+◌, ◌-◌, ◌≤◌, ◌≡◌, Bool, true, false, ◌&&◌, ◌⊎◌, inl, inr, List, [], ◌∷◌, arith, leb, ◌==◌,
  if◌then◌else◌,
}

pub record Cell : Type 0 where
  pub addr : ℕ
  pub size : ℕ
  pub free : Bool

abbrev pub cell : ℕ → ℕ → Bool → Cell
cell a s f = record { addr = a; size = s; free = f }

-- The end of a block: its header takes 20 bytes.
abbrev pub end_of : Cell → ℕ
end_of c = c.addr + 20 + c.size

abbrev pub first : List Cell → ℕ
first [] = 0
first (c ∷ cs) = c.addr

-- The blocks lie between `lo` and `hi` in the order of their addresses, and no two overlap.
abbrev pub Layout : ℕ → List Cell → ℕ → Type 0
Layout lo [] hi = lo ≤ hi
Layout lo (c ∷ cs) hi = (lo ≤ c.addr) × Layout (end_of c) cs hi

pub Layout-le : (lo : ℕ) (cs : List Cell) (hi : ℕ) → Layout lo cs hi → lo ≤ hi
Layout-le lo [] hi l = l
Layout-le lo (c ∷ cs) hi l = omega (arith, Layout-le (end_of c) cs hi l.1)

pub Layout-weaken :
    (lo lo' : ℕ) (cs : List Cell) (hi : ℕ) → lo' ≤ lo → Layout lo cs hi → Layout lo' cs hi
Layout-weaken lo lo' [] hi h l = omega arith
Layout-weaken lo lo' (c ∷ cs) hi h l = (omega arith, l.1)

-- The first free block of at least `size` bytes, 0 if there is none.
unfoldable pub find_cell : ℕ → List Cell → ℕ
find_cell size [] = 0
find_cell size (c ∷ cs) = if c.free && leb size c.size then c.addr else find_cell size cs

unfoldable pub take_cell : ℕ → Cell → List Cell → List Cell
take_cell size c cs =
    if leb (size + 24) c.size
    then cell c.addr size false ∷ cell (c.addr + 20 + size) (c.size - size - 20) true ∷ cs
    else cell c.addr c.size false ∷ cs

unfoldable pub alloc_cells : ℕ → List Cell → List Cell
alloc_cells size [] = []
alloc_cells size (c ∷ cs) =
    if c.free && leb size c.size then take_cell size c cs else c ∷ alloc_cells size cs

-- A free block takes in the block behind it if that one is free.
unfoldable pub absorb : Cell → List Cell → List Cell
absorb c [] = c ∷ []
absorb c (d ∷ ds) = if d.free then cell c.addr (c.size + 20 + d.size) c.free ∷ ds else c ∷ d ∷ ds

unfoldable pub absorb_into : Cell → List Cell → List Cell
absorb_into b cs = if b.free then absorb b cs else b ∷ cs

-- Frees the block at `p`, with the block before it at hand.
unfoldable pub free_after : ℕ → Cell → List Cell → List Cell
free_after p b [] = b ∷ []
free_after p b (c ∷ cs) =
    let rest = free_after p c cs in
    if c.addr == p then absorb_into b (absorb (cell c.addr c.size true) cs) else b ∷ rest

unfoldable pub free_cells : ℕ → List Cell → List Cell
free_cells p [] = []
free_cells p (c ∷ cs) =
    if c.addr == p then absorb (cell c.addr c.size true) cs else free_after p c cs

-- The block at `a` with `s` bytes is in use.
abbrev pub Used : ℕ → ℕ → List Cell → Type 0
Used a s [] = ⊥
Used a s (c ∷ cs) = ((c.addr ≡ a) × (c.size ≡ s) × (c.free ≡ false)) ⊎ Used a s cs

-- A block in use lies between the bounds of the layout.
pub Used-bounds :
    (a s lo : ℕ) (cs : List Cell) (hi : ℕ)
    → Layout lo cs hi
    → Used a s cs
    → (lo ≤ a) × (a + 20 + s ≤ hi)
Used-bounds a s lo [] hi l u = absurd u
Used-bounds a s lo (c ∷ cs) hi l (inl e) = omega (arith, Layout-le (end_of c) cs hi l.1)
Used-bounds a s lo (c ∷ cs) hi l (inr u) = omega (arith, Used-bounds a s (end_of c) cs hi l.1 u)

pub take_cell-Layout :
    (size lo : ℕ) (c : Cell) (cs : List Cell) (hi : ℕ)
    → size ≤ c.size
    → Layout lo (c ∷ cs) hi
    → Layout lo (take_cell size c cs) hi
unfolding take_cell
take_cell-Layout size lo c cs hi h l =
    ground (arith, Layout-weaken (end_of c) (c.addr + 20 + size + 20 + (c.size - size - 20)) cs hi)

pub alloc_cells-Layout :
    (size lo : ℕ) (cs : List Cell) (hi : ℕ) → Layout lo cs hi → Layout lo (alloc_cells size cs) hi
unfolding alloc_cells
alloc_cells-Layout size lo [] hi l = l
alloc_cells-Layout size lo (c ∷ cs) hi l =
    ground (arith, take_cell-Layout size lo c cs hi, alloc_cells-Layout size (end_of c) cs hi l.1)

pub absorb-Layout :
    (lo : ℕ) (c : Cell) (cs : List Cell) (hi : ℕ)
    → Layout lo (c ∷ cs) hi
    → Layout lo (absorb c cs) hi
unfolding absorb
absorb-Layout lo c [] hi l = l
absorb-Layout lo c (d ∷ ds) hi l =
    ground (arith, Layout-weaken (end_of d) (c.addr + 20 + (c.size + 20 + d.size)) ds hi)

absorb_into-Layout :
    (lo : ℕ) (b : Cell) (cs : List Cell) (hi : ℕ)
    → Layout lo (b ∷ cs) hi
    → Layout lo (absorb_into b cs) hi
unfolding absorb_into
absorb_into-Layout lo b cs hi l = ground (arith, absorb-Layout lo b cs hi l)

free_after-Layout :
    (p lo : ℕ) (b : Cell) (cs : List Cell) (hi : ℕ)
    → Layout lo (b ∷ cs) hi
    → Layout lo (free_after p b cs) hi
unfolding free_after
free_after-Layout p lo b [] hi l = l
free_after-Layout p lo b (c ∷ cs) hi l =
    let freed = absorb-Layout (end_of b) (cell c.addr c.size true) cs hi l.1 in
    ground (
      arith,
      absorb_into-Layout lo b (absorb (cell c.addr c.size true) cs) hi (l.0, freed),
      free_after-Layout p (end_of b) c cs hi l.1,
    )

pub free_cells-Layout :
    (p lo : ℕ) (cs : List Cell) (hi : ℕ) → Layout lo cs hi → Layout lo (free_cells p cs) hi
unfolding free_cells
free_cells-Layout p lo [] hi l = l
free_cells-Layout p lo (c ∷ cs) hi l =
    ground
      (arith, absorb-Layout lo (cell c.addr c.size true) cs hi l, free_after-Layout p lo c cs hi l)
