-- ===== src/Memory/Heap/Release.antt =====
-- `kfree` carries out the release over the list of blocks.
use mathlib.Core.Path.{subst, sym, ◌∙◌, ap}
use dosfs.Prelude.{
  ℕ, ◌+◌, ◌-◌, ◌^◌, ◌≤◌, ◌<◌, ◌≡◌, ◌≢◌, refl, true, false, List, [], ◌∷◌, inl, inr, arith, ◌==◌,
  Bool-cases, ==_iff,
}
use dosfs.Memory.Pages.{Pages}
use dosfs.Memory.Heap.{
  Words, Heap, write, heap_start, block_magic, block_size, u32, merge_next, merge_prev,
  release_block, kfree,
}
use dosfs.Memory.Heap.Cells.{
  Cell, cell, end_of, first, Layout, absorb, absorb-Layout, absorb_into, free_after, free_cells,
  free_cells-Layout, Used, Used-bounds,
}
use dosfs.Memory.Heap.Usage.{free_cells-Used, footprint, footprint-free_cells}
use dosfs.Memory.Heap.Linked.{flag, Linked}
use dosfs.Memory.Heap.Free.{
  absorb-Linked, mark-Linked, merge_prev-free, merge_prev-none, merge_next-below,
}
use dosfs.Memory.Heap.Valid.{IsValid}

first-absorb : (c : Cell) (cs : List Cell) → first (absorb c cs) ≡ c.addr
unfolding absorb
first-absorb c [] = refl
first-absorb c (d ∷ ds) = ground arith

first-absorb_into : (b : Cell) (cs : List Cell) → first (absorb_into b cs) ≡ b.addr
unfolding absorb_into
first-absorb_into b cs = ground (arith, first-absorb b cs)

first-free_after : (p : ℕ) (b : Cell) (cs : List Cell) → first (free_after p b cs) ≡ b.addr
unfolding free_after
first-free_after p b [] = refl
first-free_after p b (c ∷ cs) =
    ground (arith, first-absorb_into b (absorb (cell c.addr c.size true) cs))

absorb-header :
    (m : Words) (prev : ℕ) (c : Cell) (cs : List Cell)
    → Linked m prev (absorb c cs)
    → (m (c.addr + 12) ≡ prev) × (m (c.addr + 4) ≡ flag c.free)
unfolding absorb
absorb-header m prev c [] k = ground arith
absorb-header m prev c (d ∷ ds) k = ground arith

merge_next-Linked_below :
    (m : Words) (prev lo : ℕ) (c : Cell) (cs : List Cell) (hi a : ℕ)
    → Layout lo (c ∷ cs) hi
    → Linked m prev (c ∷ cs)
    → a < c.addr
    → merge_next m c.addr a ≡ m a
merge_next-Linked_below m prev lo c [] hi a l k h =
    merge_next-below m c.addr a (inl k.0.2) (inl k.0.2) h
merge_next-Linked_below m prev lo c (d ∷ []) hi a l k h =
    merge_next-below m c.addr a (inr (omega arith)) (ground arith) h
merge_next-Linked_below m prev lo c (d ∷ e ∷ es) hi a l k h =
    merge_next-below m c.addr a (inr (omega arith)) (ground arith) h

absorb_into-free : (b : Cell) (cs : List Cell) → b.free ≡ true → absorb_into b cs ≡ absorb b cs
unfolding absorb_into
absorb_into-free b cs f = ground arith

absorb_into-used : (b : Cell) (cs : List Cell) → b.free ≡ false → absorb_into b cs ≡ b ∷ cs
unfolding absorb_into
absorb_into-used b cs f = ground arith

-- Freeing the block `c` behind the block `b`.
module _ (m : Words) (prev lo : ℕ) (b c : Cell) (cs : List Cell) (hi : ℕ) (low : 24 ≤ lo)
    (top : hi ≤ 2 ^ 32) (l : Layout lo (b ∷ c ∷ cs) hi) (k : Linked m prev (b ∷ c ∷ cs)) where
  freed : Cell
  freed = cell c.addr c.size true

  marked : Words
  marked = write m (c.addr + 4) 1

  joined : Words
  joined = merge_next marked c.addr

  joined_below : (a : ℕ) → a < c.addr → joined a ≡ m a
  unfolding joined marked freed
  joined_below a h =
      merge_next-Linked_below marked b.addr (end_of b) freed cs hi a l.1
        (mark-Linked m b.addr (end_of b) c cs hi l.1 k.1) h
      ∙ ground arith

  joined-tail : Linked joined b.addr (absorb freed cs)
  unfolding joined marked freed
  joined-tail =
      absorb-Linked marked b.addr (end_of b) freed hi (omega arith) top cs l.1
        (mark-Linked m b.addr (end_of b) c cs hi l.1 k.1)

  joined-Linked : Linked joined prev (b ∷ absorb freed cs)
  unfolding freed
  joined-Linked = (
    ground (
      arith,
      first-absorb freed cs,
      joined_below b.addr,
      joined_below (b.addr + 4),
      joined_below (b.addr + 8),
      joined_below (b.addr + 12),
      joined_below (b.addr + 16),
    ),
    joined-tail,
  )

  -- `release_block` at `c`, with what it leaves alone.
  release_at :
      Linked (release_block m c.addr) prev (absorb_into b (absorb freed cs))
      × ((a : ℕ) → a < b.addr → release_block m c.addr a ≡ m a)
  unfolding release_block joined marked freed absorb_into
  release_at =
      let head = absorb-header joined b.addr freed cs joined-tail in
      let layout = absorb-Layout (end_of b) freed cs hi l.1 in
      let link : joined (b.addr + 8) ≡ c.addr = joined-Linked.0.2 ∙ first-absorb freed cs in
      elim (Bool-cases b.free) [
        | inl f ↦
            let swap : merge_prev joined c.addr ≡ merge_next joined b.addr =
              merge_prev-free joined c.addr b.addr (omega arith) head.0 (omega arith) link
                (ground (arith, joined-Linked.0.1)) (ground arith) in
            (
              subst (Linked (release_block m c.addr) prev)
                  (sym (absorb_into-free b (absorb freed cs) f))
                  (subst (λ w. Linked w prev (absorb b (absorb freed cs))) (sym swap)
                    (absorb-Linked joined prev lo b hi low top (absorb freed cs) (l.0, layout)
                      joined-Linked)),
              λ a h.
                  ap (λ (w : Words). w a) swap
                  ∙ merge_next-Linked_below joined prev lo b (absorb freed cs) hi a (l.0, layout)
                      joined-Linked h
                  ∙ joined_below a (omega arith),
            )
        | inr f ↦
            let swap : merge_prev joined c.addr ≡ joined =
              merge_prev-none joined c.addr (inr (ground (arith, joined-Linked.0.1))) in
            (
              subst (Linked (release_block m c.addr) prev)
                  (sym (absorb_into-used b (absorb freed cs) f))
                  (subst (λ w. Linked w prev (b ∷ absorb freed cs)) (sym swap) joined-Linked),
              λ a h. ap (λ (w : Words). w a) swap ∙ joined_below a (omega arith),
            )
      ]

Used-tail :
    (p s : ℕ) (c : Cell) (cs : List Cell) → (c.addr == p) ≡ false → Used p s (c ∷ cs) → Used p s cs
Used-tail p s c cs ne (inl e) = ground arith
Used-tail p s c cs ne (inr u) = u

-- Freeing a block somewhere behind `b`.
release_after :
    (m : Words) (prev lo : ℕ) (b : Cell) (cs : List Cell) (hi p s : ℕ)
    → 24 ≤ lo
    → hi ≤ 2 ^ 32
    → Layout lo (b ∷ cs) hi
    → Linked m prev (b ∷ cs)
    → Used p s cs
    → Linked (release_block m p) prev (free_after p b cs)
      × ((a : ℕ) → a < b.addr → release_block m p a ≡ m a)
unfolding free_after freed
release_after m prev lo b [] hi p s low top l k u = absurd u
release_after m prev lo b (c ∷ cs) hi p s low top l k u = elim (Bool-cases (c.addr == p)) [
  | inl e ↦
      let same : c.addr ≡ p = (==_iff c.addr p).0 e in
      rw e (
        subst
          (λ q.
            Linked (release_block m q) prev (absorb_into b (absorb (cell c.addr c.size true) cs))
            × ((a : ℕ) → a < b.addr → release_block m q a ≡ m a))
          same (release_at m prev lo b c cs hi low top l k))
  | inr e ↦ rw e (
      let u' : Used p s cs = Used-tail p s c cs e u in
      let (linked, below) =
        release_after m b.addr (end_of b) c cs hi p s (omega arith) top l.1 k.1 u' in
      (
        (
          ground (
            arith,
            first-free_after p c cs,
            below b.addr,
            below (b.addr + 4),
            below (b.addr + 8),
            below (b.addr + 12),
            below (b.addr + 16),
          ),
          linked,
        ),
        λ a h. below a (omega arith),
      ))
]

-- Freeing the first block.
release_first :
    (m : Words) (lo : ℕ) (c : Cell) (cs : List Cell) (hi : ℕ)
    → 24 ≤ lo
    → hi ≤ 2 ^ 32
    → Layout lo (c ∷ cs) hi
    → Linked m 0 (c ∷ cs)
    → Linked (release_block m c.addr) 0 (absorb (cell c.addr c.size true) cs)
unfolding release_block
release_first m lo c cs hi low top l k =
    let freed = cell c.addr c.size true in
    let joined =
      absorb-Linked (write m (c.addr + 4) 1) 0 lo freed hi low top cs l
        (mark-Linked m 0 lo c cs hi l k) in
    subst (λ w. Linked w 0 (absorb freed cs))
      (sym (merge_prev-none _ c.addr (inl (absorb-header _ 0 freed cs joined).0))) joined

free_cells-Linked :
    (m : Words) (lo : ℕ) (cs : List Cell) (hi p s : ℕ)
    → 24 ≤ lo
    → hi ≤ 2 ^ 32
    → Layout lo cs hi
    → Linked m 0 cs
    → Used p s cs
    → Linked (release_block m p) 0 (free_cells p cs)
unfolding free_cells
free_cells-Linked m lo [] hi p s low top l k u = absurd u
free_cells-Linked m lo (c ∷ cs) hi p s low top l k u = elim (Bool-cases (c.addr == p)) [
  | inl e ↦
      let same : c.addr ≡ p = (==_iff c.addr p).0 e in
      rw e (
        subst (λ q. Linked (release_block m q) 0 (absorb (cell c.addr c.size true) cs)) same
          (release_first m lo c cs hi low top l k))
  | inr e ↦ rw e (release_after m 0 lo c cs hi p s low top l k (Used-tail p s c cs e u)).0
]

first-free_cells : (p : ℕ) (cs : List Cell) → first (free_cells p cs) ≡ first cs
unfolding free_cells
first-free_cells p [] = refl
first-free_cells p (c ∷ cs) =
    ground (arith, first-absorb (cell c.addr c.size true) cs, first-free_after p c cs)

Used-magic :
    (m : Words) (prev : ℕ) (cs : List Cell) (p s : ℕ)
    → Linked m prev cs
    → Used p s cs
    → m (p + 16) ≡ block_magic
Used-magic m prev [] p s k u = absurd u
Used-magic m prev (c ∷ cs) p s k (inl e) = ground arith
Used-magic m prev (c ∷ cs) p s k (inr u) = Used-magic m c.addr cs p s k.1 u

module _ (P : Pages) where
  -- Freeing the payload of a block in use releases that block: the heap then holds the list of blocks
  -- after the release, every other block in use still is, and no byte of the heap is lost.
  pub kfree_lem :
      (h : Heap P) (cs : List Cell) (p s : ℕ)
      → IsValid P h cs
      → Used p s cs
      → IsValid P (kfree P (p + 20) h) (free_cells p cs)
        × ((a t : ℕ) → a ≢ p → Used a t cs → Used a t (free_cells p cs))
        × (footprint (free_cells p cs) ≡ footprint cs)
  unfolding kfree
  kfree_lem h cs p s v u =
      let bounds = Used-bounds p s heap_start cs h.current v.layout u in
      let back : u32 (p + 20 + 2 ^ 32 - block_size) ≡ p = omega (arith, bounds, v.top) in
      let go : (p + 20 == 0) ≡ false = ground arith in
      let magic : (h.words (p + 16) == block_magic) ≡ true =
        ground (arith, Used-magic h.words 0 cs p s v.linked u) in
      (
        rw (back, go, magic)
            (record {
              head = v.head ∙ sym (first-free_cells p cs);
              linked =
                  free_cells-Linked h.words heap_start cs h.current p s (omega arith) v.top v.layout
                    v.linked u;
              layout = free_cells-Layout p heap_start cs h.current v.layout;
              top = v.top;
            }),
        λ a t ne w. free_cells-Used p a t cs ne w,
        footprint-free_cells p cs,
      )
