-- ===== src/Memory/Heap/Init.antt =====
-- `heap_init` makes a well-formed heap.
use dosfs.Prelude.{
  ℕ, zero, suc, ◌+◌, ◌-◌, ◌*◌, ◌^◌, ◌≤◌, ◌<◌, ◌≡◌, refl, true, List, [], ◌∷◌, arith, ◌==◌,
  Bool-cases, inl, inr, if◌then◌else◌,
}
use dosfs.Memory.Pages.{Pages}
use dosfs.Memory.Heap.{Heap, heap_start, page_size, u32, map_pages, heap_init}
use dosfs.Memory.Heap.Cells.{Cell, cell}
use dosfs.Memory.Heap.Valid.{IsValid}

module _ (P : Pages) where
  record Mapped (n : ℕ) (h : Heap P) (r : ℕ × Heap P) : Type 0 where
    same_head : r.1.head ≡ h.head
    few : r.0 ≤ n
    current : r.1.current ≡ h.current + 4096 * r.0

  map_pages-Mapped :
      (n : ℕ) (h : Heap P) → h.current + 4096 * n < 2 ^ 32 → Mapped n h (map_pages P n h)
  unfolding map_pages
  map_pages-Mapped zero h fits = record {
    same_head = refl;
    few = omega arith;
    current = omega arith;
  }
  map_pages-Mapped (suc n) h fits = elim (Bool-cases ((P.alloc_page h.frames).0 == 0)) [
    | inl e ↦ rw e (record { same_head = refl; few = omega arith; current = omega arith })
    | inr e ↦ rw e (
        let g =
          map_pages-Mapped n
            (record h {
              current = u32 (h.current + page_size);
              frames = P.map_page h.current (P.alloc_page h.frames).0 3 (P.alloc_page h.frames).1;
            })
            (omega arith) in
        record {
          same_head = g.same_head;
          few = omega (arith, g.few);
          current = omega (arith, g.current);
        })
  ]

  -- The blocks of a fresh heap: none if no page could be had.
  pub fresh_cells : Heap P → List Cell
  fresh_cells h =
      let k = (map_pages P 64 (record h { current = heap_start; head = 0 })).0 in
      if k == 0 then [] else cell heap_start (k * 4096 - 20) true ∷ []

  -- After `heap_init` the heap is well-formed: it holds one free block over all the pages that could be
  -- mapped, and no block if there was no page.
  pub heap_init-IsValid : (h : Heap P) → IsValid P (heap_init P h) (fresh_cells h)
  unfolding heap_init fresh_cells
  heap_init-IsValid h =
      let h0 : Heap P = record h { current = heap_start; head = 0 } in
      let g = map_pages-Mapped 64 h0 (omega arith) in
      elim (Bool-cases ((map_pages P 64 h0).0 == 0)) [
        | inl e ↦ rw e (record {
          head = g.same_head;
          linked = tt;
          layout = omega (arith, g.current);
          top = omega (arith, g.current, g.few);
        })
        | inr e ↦ rw e (record {
          head = refl;
          linked = ground arith;
          layout = ground (arith, g.current);
          top = omega (arith, g.current, g.few);
        })
      ]
