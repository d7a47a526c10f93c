-- ===== src/Memory/Heap/Linked.antt =====
-- When memory holds a list of blocks, and which writes leave it standing.
use dosfs.Prelude.{
  ℕ, zero, suc, ◌+◌, ◌*◌, ◌≤◌, ◌<◌, ◌≡◌, refl, Bool, true, false, some, inl, inr, List, [], ◌∷◌,
  arith, length,
}
use dosfs.Memory.Heap.{Words, write, block_magic, find_free_block}
use dosfs.Memory.Heap.Cells.{Cell, end_of, first, Layout, Layout-le, find_cell, Used, Used-bounds}

abbrev pub flag : Bool → ℕ
flag false = 0
flag true = 1

-- The five words of the header of `c`.
abbrev pub Header : Words → Cell → ℕ → ℕ → Type 0
Header m c prev next =
    (m c.addr ≡ c.size)
    × (m (c.addr + 4) ≡ flag c.free)
    × (m (c.addr + 8) ≡ next)
    × (m (c.addr + 12) ≡ prev)
    × (m (c.addr + 16) ≡ block_magic)

-- The headers lead through the blocks in both directions.
abbrev pub Linked : Words → ℕ → List Cell → Type 0
Linked m prev [] = Unit
Linked m prev (c ∷ cs) = Header m c prev (first cs) × Linked m c.addr cs

pub Linked-frame :
    (m m' : Words) (prev lo : ℕ) (cs : List Cell) (hi : ℕ)
    → Layout lo cs hi
    → ((a : ℕ) → lo ≤ a → m' a ≡ m a)
    → Linked m prev cs
    → Linked m' prev cs
Linked-frame m m' prev lo [] hi l same k = k
Linked-frame m m' prev lo (c ∷ cs) hi l same k = (
  ground (
    arith,
    same c.addr,
    same (c.addr + 4),
    same (c.addr + 8),
    same (c.addr + 12),
    same (c.addr + 16),
  ),
  Linked-frame m m' c.addr (end_of c) cs hi l.1 (λ a h. same a (omega (arith, l.0))) k.1,
)

pub Linked-below :
    (m m' : Words) (prev lo : ℕ) (cs : List Cell) (hi : ℕ)
    → Layout lo cs hi
    → ((a : ℕ) → a < hi → m' a ≡ m a)
    → Linked m prev cs
    → Linked m' prev cs
Linked-below m m' prev lo [] hi l same k = k
Linked-below m m' prev lo (c ∷ cs) hi l same k =
    let room = Layout-le (end_of c) cs hi l.1 in
    (
      ground (
        arith,
        same c.addr,
        same (c.addr + 4),
        same (c.addr + 8),
        same (c.addr + 12),
        same (c.addr + 16),
      ),
      Linked-below m m' c.addr (end_of c) cs hi l.1 same k.1,
    )

pub length-Layout : (lo : ℕ) (cs : List Cell) (hi : ℕ) → Layout lo cs hi → 20 * length cs + lo ≤ hi
length-Layout lo [] hi l = omega arith
length-Layout lo (c ∷ cs) hi l = omega (arith, length-Layout (end_of c) cs hi l.1)

-- The walk of `find_free_block` comes to its end, at the first block that fits.
pub find_free_block_lem :
    (k : ℕ) (m : Words) (size prev lo : ℕ) (cs : List Cell) (hi : ℕ)
    → Layout lo cs hi
    → 0 < lo
    → Linked m prev cs
    → length cs < k
    → find_free_block k m (first cs) size ≡ some (find_cell size cs)
unfolding find_free_block find_cell
find_free_block_lem zero m size prev lo cs hi l pos k fuel = absurd (omega arith)
find_free_block_lem (suc n) m size prev lo [] hi l pos k fuel = refl
find_free_block_lem (suc n) m size prev lo (c ∷ cs) hi l pos k fuel =
    ground (arith, find_free_block_lem n m size c.addr (end_of c) cs hi l.1)

-- A client that writes inside a block in use leaves the headers as they are.
pub Linked-payload :
    (m : Words) (prev lo : ℕ) (cs : List Cell) (hi a s x v : ℕ)
    → Layout lo cs hi
    → Linked m prev cs
    → Used a s cs
    → a + 20 ≤ x
    → x < a + 20 + s
    → Linked (write m x v) prev cs
Linked-payload m prev lo [] hi a s x v l k u low high = k
Linked-payload m prev lo (c ∷ cs) hi a s x v l k (inl e) low high = (
  ground arith,
  Linked-frame m (write m x v) c.addr (end_of c) cs hi l.1 (λ b h. ground arith) k.1,
)
Linked-payload m prev lo (c ∷ cs) hi a s x v l k (inr u) low high =
    let b = Used-bounds a s (end_of c) cs hi l.1 u in
    (ground arith, Linked-payload m c.addr (end_of c) cs hi a s x v l.1 k.1 u low high)
