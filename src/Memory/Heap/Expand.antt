-- ===== src/Memory/Heap/Expand.antt =====
-- `expand_heap`: `kmalloc` where no free block fits.
use dosfs.Prelude.{
  ℕ, zero, suc, ◌+◌, ◌-◌, ◌*◌, ◌/◌, ◌^◌, ◌≤◌, ◌<◌, ◌≡◌, ◌≢◌, refl, Bool, true, false, some, List,
  [], ◌∷◌, ◌++◌, inl, inr, arith, length, Bool-cases, ◌||◌, ltb, ◌==◌,
}
use native.Mathlib.Nat.{le_refl}
use mathlib.Core.Path.{subst, sym, ap, ◌∙◌}
use dosfs.Memory.Pages.{Pages}
use dosfs.Memory.Heap.{
  Words, Heap, heap_start, max_blocks, align4, u32, page_size, zero_page, grow, write, put_header,
  last_block, append_block, expand_heap, kmalloc, find_free_block, block_size,
}
use dosfs.Memory.Heap.Cells.{Cell, cell, end_of, first, Layout, Layout-le, find_cell}
use dosfs.Memory.Heap.Linked.{Header, Linked, Linked-below, length-Layout}
use dosfs.Memory.Heap.Valid.{IsValid, search_lem}

-- The address of the last block.
abbrev pub last : Cell → List Cell → ℕ
last c [] = c.addr
last c (d ∷ ds) = last d ds

last_block_lem :
    (k : ℕ) (m : Words) (prev lo : ℕ) (c : Cell) (cs : List Cell) (hi : ℕ)
    → Layout lo (c ∷ cs) hi
    → 0 < lo
    → Linked m prev (c ∷ cs)
    → length cs < k
    → last_block k m c.addr ≡ some (last c cs)
unfolding last_block
last_block_lem zero m prev lo c cs hi l pos k fuel = absurd (omega arith)
last_block_lem (suc n) m prev lo c [] hi l pos k fuel = ground arith
last_block_lem (suc n) m prev lo c (d ∷ ds) hi l pos k fuel =
    ground (arith, last_block_lem n m c.addr (end_of c) d ds hi l.1 (omega arith) k.1)

last_bounds :
    (lo : ℕ) (c : Cell) (cs : List Cell) (hi : ℕ)
    → Layout lo (c ∷ cs) hi
    → (lo ≤ last c cs) × (last c cs + 20 ≤ hi)
last_bounds lo c [] hi l = omega arith
last_bounds lo c (d ∷ ds) hi l = omega (arith, last_bounds (end_of c) d ds hi l.1)

-- Two writes behind a header leave it alone.
Header-beyond :
    (m : Words) (c : Cell) (prev next x v y w : ℕ)
    → c.addr + 20 ≤ x
    → c.addr + 20 ≤ y
    → Header m c prev next
    → Header (write (write m x v) y w) c prev next
Header-beyond m c prev next x v y w p q k =
    (ground arith, ground arith, ground arith, ground arith, ground arith)

-- Linking a header behind the last block puts its block at the end of the list.
append-Linked :
    (m : Words) (prev lo : ℕ) (c : Cell) (cs : List Cell) (hi : ℕ) (b : Cell)
    → Layout lo (c ∷ cs) hi
    → hi ≤ b.addr
    → Linked m prev (c ∷ cs)
    → Header m b 0 0
    → Linked
        (write (write m (last c cs + 8) b.addr) (b.addr + 12) (last c cs))
        prev
        ((c ∷ cs) ++ (b ∷ []))
append-Linked m prev lo c [] hi b l h k kb = ground arith
append-Linked m prev lo c (d ∷ ds) hi b l h k kb =
    let w = last_bounds (end_of c) d ds hi l.1 in
    (
      Header-beyond m c prev d.addr (last d ds + 8) b.addr (b.addr + 12) (last d ds)
          (omega (arith, w)) (omega (arith, w)) k.0,
      append-Linked m c.addr (end_of c) d ds hi b l.1 h k.1 kb,
    )

Layout-append :
    (lo : ℕ) (cs : List Cell) (mid : ℕ) (b : Cell) (hi : ℕ)
    → Layout lo cs mid
    → mid ≤ b.addr
    → end_of b ≤ hi
    → Layout lo (cs ++ (b ∷ [])) hi
Layout-append lo [] mid b hi l h t = omega arith
Layout-append lo (c ∷ cs) mid b hi l h t = (l.0, Layout-append (end_of c) cs mid b hi l.1 h t)

module _ (P : Pages) where
  -- What `grow` leaves alone, and how far it gets.
  pub record Grown (n : ℕ) (h : Heap P) (r : Bool × Heap P) : Type 0 where
    pub same_head : r.1.head ≡ h.head
    pub same_below : (a : ℕ) → a < h.current → r.1.words a ≡ h.words a
    pub forward : h.current ≤ r.1.current
    pub bounded : r.1.current ≤ h.current + 4096 * n
    pub all : r.0 ≡ true → r.1.current ≡ h.current + 4096 * n

  pub grow-Grown : (n : ℕ) (h : Heap P) → h.current + 4096 * n < 2 ^ 32 → Grown n h (grow P n h)
  unfolding grow
  grow-Grown zero h fits = record {
    same_head = refl;
    same_below = λ a lt. refl;
    forward = omega arith;
    bounded = omega arith;
    all = λ e. omega arith;
  }
  grow-Grown (suc n) h fits = elim (Bool-cases ((P.alloc_page h.frames).0 == 0)) [
    | inl e ↦ rw e (record {
      same_head = refl;
      same_below = λ a lt. refl;
      forward = omega arith;
      bounded = omega arith;
      all = λ t. cc;
    })
    | inr e ↦ rw e (
        let h' : Heap P = record {
          words = zero_page h.words h.current;
          head = h.head;
          current = u32 (h.current + page_size);
          frames = P.map_page h.current (P.alloc_page h.frames).0 3 (P.alloc_page h.frames).1;
        } in
        let g = grow-Grown n h' (omega arith) in
        record {
          same_head = g.same_head;
          same_below = λ a lt. ground (arith, g.same_below a);
          forward = omega (arith, g.forward);
          bounded = omega (arith, g.bounded);
          all = λ t. omega (arith, g.all t);
        })
  ]

  -- The heap after appending a block in use: nothing is mapped and the end stays.
  pub record Appended (h : Heap P) (cs : List Cell) (block size : ℕ) (h' : Heap P) : Type 0 where
    pub head : h'.head ≡ first (cs ++ (cell block size false ∷ []))
    pub linked : Linked h'.words 0 (cs ++ (cell block size false ∷ []))
    pub current : h'.current ≡ h.current
    pub frames : h'.frames ≡ h.frames

  pub append_block_lem :
      (h : Heap P) (cs : List Cell) (block size : ℕ)
      → h.head ≡ first cs
      → Linked h.words 0 cs
      → Layout heap_start cs block
      → block ≤ 2 ^ 32
      → (h' : Heap P) × (append_block P block size h ≡ some (block, h'))
        × Appended h cs block size h'
  unfolding append_block
  append_block_lem h [] block size e k l top = (
    record h { words = put_header h.words block size 0 0 0; head = block },
    rw e,
    record { head = refl; linked = ground arith; current = refl; frames = refl },
  )
  append_block_lem h (c ∷ cs) block size e k l top =
      let m = put_header h.words block size 0 0 0 in
      let k' = Linked-below h.words m 0 heap_start (c ∷ cs) block l (λ a lt. ground arith) k in
      let end =
        last_block_lem max_blocks m 0 heap_start c cs block l (omega arith) k'
          (omega (arith, length-Layout heap_start (c ∷ cs) block l)) in
      (
        record h { words = write (write m (last c cs + 8) block) (block + 12) (last c cs) },
        (let some_head : (h.head == 0) ≡ false = ground arith in
            let end' : last_block max_blocks m h.head ≡ some (last c cs) =
              subst (λ x. last_block max_blocks m x ≡ some (last c cs)) (sym e) end in
            rw (some_head, end')),
        record {
          head = e;
          linked =
              append-Linked m 0 heap_start c cs block (cell block size false) l (le_refl block) k'
                (ground arith);
          current = refl;
          frames = refl;
        },
      )

  expand_heap_lem :
      (h : Heap P) (cs : List Cell) (size : ℕ)
      → IsValid P h cs
      → h.current + size + 0x2000 < 2 ^ 32
      → (grow P ((size + 20 + 4095) / 4096) h).0 ≡ true
      → (h' : Heap P) × (expand_heap P size h ≡ some (h.current, h'))
        × IsValid P h' (cs ++ (cell h.current size false ∷ []))
  unfolding expand_heap
  expand_heap_lem h cs size v small pages =
      let n = (size + 20 + 4095) / 4096 in
      let g = grow-Grown n h (omega arith) in
      let h1 : Heap P = (grow P n h).1 in
      let linked =
        Linked-below h.words h1.words 0 heap_start cs h.current v.layout g.same_below v.linked in
      let (h2, runs, done) =
        append_block_lem h1 cs h.current size (g.same_head ∙ v.head) linked v.layout
          (omega arith) in
      let count : u32 (u32 (20 + size) + 4096 - 1) / 4096 ≡ n = omega arith in
      (
        h2,
        rw (count, pages) runs,
        record {
          head = done.head;
          linked = done.linked;
          layout = rw done.current (
              Layout-append heap_start cs h.current (cell h.current size false) h1.current v.layout
                (le_refl h.current) (omega (arith, g.all pages)));
          top = rw done.current (omega (arith, g.bounded));
        },
      )

  pub kmalloc_expanded :
      (h h' : Heap P) (size block : ℕ)
      → 0 < size
      → size ≤ 0xFFFFFFFF - 24
      → find_free_block max_blocks h.words h.head (align4 size) ≡ some 0
      → expand_heap P (align4 size) h ≡ some (block, h')
      → block ≢ 0
      → kmalloc P size h ≡ some (u32 (block + 20), h')
  unfolding kmalloc
  kmalloc_expanded h h' size zero pos small none_fits e ne = absurd (ne refl)
  kmalloc_expanded h h' size (suc b) pos small none_fits e ne =
      let go : (size == 0 || ltb (0xFFFFFFFF - block_size - 4) size) ≡ false = ground arith in
      rw (go, none_fits, e)

  -- For a positive size, where no free block fits, there is room below 2 ^ 32 and the pages can be had,
  -- `kmalloc` returns a block of its own behind all the others, which stay as they are, and the heap is
  -- well-formed.
  pub kmalloc-grow :
      (h : Heap P) (cs : List Cell) (size : ℕ)
      → IsValid P h cs
      → 0 < size
      → h.current + size + 0x3000 < 2 ^ 32
      → find_cell (align4 size) cs ≡ 0
      → (grow P ((align4 size + 20 + 4095) / 4096) h).0 ≡ true
      → (h' : Heap P) × (kmalloc P size h ≡ some (h.current + 20, h'))
        × IsValid P h' (cs ++ (cell h.current (align4 size) false ∷ []))
  kmalloc-grow h cs size v pos small none_fits pages =
      let low : heap_start ≤ h.current = Layout-le heap_start cs h.current v.layout in
      let (h', runs, valid) = expand_heap_lem h cs (align4 size) v (omega arith) pages in
      let ends =
        kmalloc_expanded h h' size h.current pos (omega arith)
          (search_lem P h cs (align4 size) v ∙ ap some none_fits) runs (omega arith) in
      (h', ends ∙ ap (λ p. some (p, h')) (omega arith), valid)
