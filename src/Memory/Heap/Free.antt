-- ===== src/Memory/Heap/Free.antt =====
-- `kfree` refines the release over the list of blocks.
use mathlib.Core.Path.{subst, sym, fun_ext}
use dosfs.Prelude.{
  ℕ, ◌+◌, ◌^◌, ◌≤◌, ◌<◌, ◌≡◌, ◌≢◌, true, false, List, [], ◌∷◌, ◌⊎◌, inl, inr, arith, Bool-cases,
}
use dosfs.Memory.Heap.{Words, write, merge_next, merge_prev}
use dosfs.Memory.Heap.Cells.{Cell, cell, end_of, Layout, Layout-le, absorb}
use dosfs.Memory.Heap.Linked.{Linked, Linked-frame}

-- A block, the free block `n` behind it, and the block `e` behind that.
module _ (m : Words) (p n e : ℕ) (low : 24 ≤ p) (link : m (p + 8) ≡ n) (behind : p + 20 + m p ≤ n)
    (is_free : m (n + 4) ≢ 0) (top : n + 20 + m n ≤ 2 ^ 32) (link' : m (n + 8) ≡ e)
    (behind' : n + 20 + m n ≤ e) where
  merge_next-size : merge_next m p p ≡ m p + 20 + m n
  unfolding merge_next
  merge_next-size = ground arith

  merge_next-next : merge_next m p (p + 8) ≡ e
  unfolding merge_next
  merge_next-next = ground arith

  merge_next-back : merge_next m p (e + 12) ≡ p
  unfolding merge_next
  merge_next-back = ground arith

  merge_next-rest : (a : ℕ) → a ≢ p → a ≢ p + 8 → a ≢ e + 12 → merge_next m p a ≡ m a
  unfolding merge_next
  merge_next-rest a n1 n2 n3 = ground arith

merge_next-none : (m : Words) (p : ℕ) → m (m (p + 8) + 4) ≡ 0 → merge_next m p ≡ m
unfolding merge_next
merge_next-none m p used = ground arith

absorb-free :
    (c d : Cell) (ds : List Cell)
    → d.free ≡ true
    → absorb c (d ∷ ds) ≡ cell c.addr (c.size + 20 + d.size) c.free ∷ ds
unfolding absorb
absorb-free c d ds f = rw f

absorb-used : (c d : Cell) (ds : List Cell) → d.free ≡ false → absorb c (d ∷ ds) ≡ c ∷ d ∷ ds
unfolding absorb
absorb-used c d ds f = ground arith

module _ (m : Words) (prev lo : ℕ) (c : Cell) (hi : ℕ) (low : 24 ≤ lo) (top : hi ≤ 2 ^ 32) where
  absorb_far :
      (d e : Cell) (es : List Cell)
      → Layout lo (c ∷ d ∷ e ∷ es) hi
      → Linked m prev (c ∷ d ∷ e ∷ es)
      → d.free ≡ true
      → Linked (merge_next m c.addr) prev (cell c.addr (c.size + 20 + d.size) c.free ∷ e ∷ es)
  absorb_far d e es l k f =
      let room = Layout-le (end_of e) es hi l.1.1.1 in
      let used : m (d.addr + 4) ≢ 0 = ground arith in
      let join =
        merge_next-size m c.addr d.addr e.addr (omega arith) k.0.2 (omega arith) used (omega arith)
          k.1.0.2 (omega arith) in
      let next =
        merge_next-next m c.addr d.addr e.addr (omega arith) k.0.2 (omega arith) used (omega arith)
          k.1.0.2 (omega arith) in
      let back =
        merge_next-back m c.addr d.addr e.addr (omega arith) k.0.2 (omega arith) used (omega arith)
          k.1.0.2 (omega arith) in
      let same =
        merge_next-rest m c.addr d.addr e.addr (omega arith) k.0.2 (omega arith) used (omega arith)
          k.1.0.2 (omega arith) in
      (
        omega (arith, join, next, same (c.addr + 4), same (c.addr + 12), same (c.addr + 16)),
        (
          omega
              (arith, back, same e.addr, same (e.addr + 4), same (e.addr + 8), same (e.addr + 16)),
          Linked-frame m (merge_next m c.addr) e.addr (end_of e) es hi l.1.1.1
              (λ a h. same a (omega arith) (omega arith) (omega arith)) k.1.1.1,
        ),
      )

  -- Merging a block with the next one carries out `absorb` on the list.
  pub absorb-Linked :
      (cs : List Cell)
      → Layout lo (c ∷ cs) hi
      → Linked m prev (c ∷ cs)
      → Linked (merge_next m c.addr) prev (absorb c cs)
  unfolding merge_next absorb
  absorb-Linked [] l k = ground arith
  absorb-Linked (d ∷ []) l k = ground arith
  absorb-Linked (d ∷ e ∷ es) l k = elim (Bool-cases d.free) [
    | inl f ↦
        subst (Linked (merge_next m c.addr) prev) (sym (absorb-free c d (e ∷ es) f))
          (absorb_far d e es l k f)
    | inr f ↦ subst (Linked (merge_next m c.addr) prev) (sym (absorb-used c d (e ∷ es) f)) (
        subst (λ w. Linked w prev (c ∷ d ∷ e ∷ es)) (sym (merge_next-none m c.addr (ground arith)))
          k)
  ]

pub mark-Linked :
    (m : Words) (prev lo : ℕ) (c : Cell) (cs : List Cell) (hi : ℕ)
    → Layout lo (c ∷ cs) hi
    → Linked m prev (c ∷ cs)
    → Linked (write m (c.addr + 4) 1) prev (cell c.addr c.size true ∷ cs)
mark-Linked m prev lo c cs hi l k = (
  (ground arith, ground arith, ground arith, ground arith, ground arith),
  Linked-frame m (write m (c.addr + 4) 1) c.addr (end_of c) cs hi l.1 (λ a h. ground arith) k.1,
)

-- With a free block in front, merging backwards is merging that block forwards.
pub merge_prev-free :
    (m : Words) (p b : ℕ)
    → 0 < b
    → m (p + 12) ≡ b
    → b + 20 ≤ p
    → m (b + 8) ≡ p
    → m (b + 4) ≢ 0
    → m (p + 4) ≢ 0
    → merge_prev m p ≡ merge_next m b
unfolding merge_prev merge_next
merge_prev-free m p b low back room link free free' = fun_ext λ a. ground arith

pub merge_prev-none :
    (m : Words) (p : ℕ) → (m (p + 12) ≡ 0) ⊎ (m (m (p + 12) + 4) ≡ 0) → merge_prev m p ≡ m
unfolding merge_prev
merge_prev-none m p none = ground arith

pub merge_next-below :
    (m : Words) (p a : ℕ)
    → (m (p + 8) ≡ 0) ⊎ (p + 20 ≤ m (p + 8))
    → (m (p + 8) ≡ 0) ⊎ (m (m (p + 8) + 8) ≡ 0) ⊎ (p + 20 ≤ m (m (p + 8) + 8))
    → a < p
    → merge_next m p a ≡ m a
unfolding merge_next
merge_next-below m p a next next' h = ground arith
