-- ===== src/Memory/Vmm/Translate.antt =====
-- Translation of a mapped and of an unmapped page.
use mathlib.Core.Path.{subst}
use dosfs.Prelude.{
  ℕ, ◌+◌, ◌*◌, ◌/◌, ◌%◌, ◌^◌, ◌<◌, ◌≡◌, ◌≢◌, ◌∙◌, refl, sym, ap, Bool, true, false, not, ◌==◌,
  if◌then◌else◌, Bool-cases, inl, inr, arith,
}
use dosfs.Memory.Heap.{Words, write, zero_page}
use dosfs.Memory.Vmm.{
  Vmm, present, page_of, entry, dir_index, table_index, get_page_table, vmm_map_page,
  vmm_unmap_page, vmm_get_physical,
}

entry-present : (w rw user page : ℕ) → present (entry w rw user page) ≡ true
entry-present w rw user page = ground arith

entry-page :
    (w rw user page : ℕ) → rw < 2 → user < 2 → page_of (entry w rw user page) ≡ page_of page
entry-page w rw user page h k = omega (arith, h, k)

-- an entry of a page table is no entry of the directory
apart :
    (dir table i j : ℕ)
    → dir % 4096 ≡ 0
    → table % 4096 ≡ 0
    → table ≢ dir
    → i < 1024
    → j < 1024
    → (table + 4 * j) ≢ (dir + 4 * i)
apart dir table i j d t n h k = omega (arith, d, t, n, h, k)

write_other : (m : Words) (a v b : ℕ) → a ≢ b → write m a v b ≡ m b
write_other m a v b n = let e : (a == b) ≡ false = ground arith in rw e refl

write_same : (m : Words) (a v : ℕ) → write m a v a ≡ v
write_same m a v = let e : (a == a) ≡ true = ground arith in rw e refl

-- What `get_page_table` leaves behind if the table is a page.
abbrev Leads : {Frames : Type 0} → ℕ → ℕ → Vmm Frames → ℕ × Vmm Frames → Type 0
Leads dir index v (table, v') =
    table % 4096 ≡ 0
    → table ≢ 0
    → (present (v'.words (dir + 4 * index)) ≡ true)
      × (page_of (v'.words (dir + 4 * index)) ≡ table)
      × (v'.current_directory ≡ v.current_directory)

module _ {Frames : Type 0} (alloc_page : Frames → ℕ × Frames)
    (free_page : ℕ → Frames → Frames) where
  -- a page that is there is found
  get_page_table-present :
      (dir index : ℕ) (create : Bool) (v : Vmm Frames)
      → present (v.words (dir + 4 * index)) ≡ true
      → get_page_table alloc_page free_page dir index create v
        ≡ (page_of (v.words (dir + 4 * index)), v)
  unfolding get_page_table
  get_page_table-present dir index create v p = rw p refl

  -- With a table there or to be had, the directory's entry leads to it afterwards.
  get_page_table-Leads :
      (dir index : ℕ) (v : Vmm Frames)
      → Leads dir index v (get_page_table alloc_page free_page dir index true v)
  unfolding get_page_table
  get_page_table-Leads dir index v =
      let slot = dir + 4 * index in
      let (table, frames') = alloc_page v.frames in
      let m = zero_page v.words table in
      let e = entry (m slot) 1 0 table in
      elim (Bool-cases (present (v.words slot))) [
        | inl p ↦
            subst (Leads dir index v) (sym (get_page_table-present dir index true v p))
              (λ t n. (p, refl, refl))
        | inr p ↦ elim (Bool-cases (table == 0)) [
          | inl z ↦
              let g : get_page_table alloc_page free_page dir index true v
                  ≡ (0, record v { frames = frames' }) =
                rw (p, z) refl in
              subst (Leads dir index v) (sym g) (λ t n. absurd (n refl))
          | inr z ↦
              let v' : Vmm Frames = record v { frames = frames'; words = write m slot e } in
              let g : get_page_table alloc_page free_page dir index true v ≡ (table, v') =
                rw (p, z) refl in
              subst (Leads dir index v) (sym g) (λ t n.
                let w : write m slot e slot ≡ e = write_same m slot e in
                (
                  rw w (entry-present (m slot) 1 0 table),
                  rw w (
                      entry-page (m slot) 1 0 table (omega arith) (omega arith) ∙ omega (arith, t)),
                  refl,
                ))
        ]
      ]

  vmm_get_physical_lem :
      (virt table : ℕ) (u : Vmm Frames)
      → present (u.words (u.current_directory + 4 * dir_index virt)) ≡ true
      → page_of (u.words (u.current_directory + 4 * dir_index virt)) ≡ table
      → table ≢ 0
      → vmm_get_physical alloc_page free_page virt u ≡ (
          if not (present (u.words (table + 4 * table_index virt)))
          then 0
          else page_of (u.words (table + 4 * table_index virt)) + virt % 4096)
  unfolding vmm_get_physical
  vmm_get_physical_lem virt table u p q n =
      let g = get_page_table-present u.current_directory (dir_index virt) false u p in
      let z : (table == 0) ≡ false = ground arith in rw (g, q, z) refl

  vmm_unmap_page_lem :
      (virt table : ℕ) (u : Vmm Frames)
      → present (u.words (u.current_directory + 4 * dir_index virt)) ≡ true
      → page_of (u.words (u.current_directory + 4 * dir_index virt)) ≡ table
      → table ≢ 0
      → vmm_unmap_page alloc_page free_page virt u ≡ record u {
        words =
            write u.words
              (table + 4 * table_index virt)
              (2 * (u.words (table + 4 * table_index virt) / 2 % 2048));
      }
  unfolding vmm_unmap_page
  vmm_unmap_page_lem virt table u p q n =
      let g = get_page_table-present u.current_directory (dir_index virt) false u p in
      let z : (table == 0) ≡ false = ground arith in rw (g, q, z) refl

  vmm_map_page_lem :
      (virt phys flags : ℕ) (v : Vmm Frames)
      → let (table, v') =
          get_page_table alloc_page free_page v.current_directory (dir_index virt) true v in
        table ≢ 0
        → vmm_map_page alloc_page free_page virt phys flags v ≡ record v' {
          words = write v'.words (table + 4 * table_index virt) (
              entry (v'.words (table + 4 * table_index virt)) (flags / 2 % 2) (flags / 4 % 2) phys);
        }
  unfolding vmm_map_page
  vmm_map_page_lem virt phys flags v n =
      let z : ((get_page_table alloc_page free_page v.current_directory (dir_index virt) true v).0
            == 0)
          ≡ false =
        ground arith in
      rw z refl

  -- A state whose directory leads to a table, with a word for the page written there.
  written :
      (virt table w : ℕ) (u : Vmm Frames)
      → virt < 2 ^ 32
      → u.current_directory % 4096 ≡ 0
      → table % 4096 ≡ 0
      → table ≢ u.current_directory
      → write u.words (table + 4 * table_index virt) w (u.current_directory + 4 * dir_index virt)
        ≡ u.words (u.current_directory + 4 * dir_index virt)
  written virt table w u h d t k =
      write_other u.words (table + 4 * table_index virt) w
        (u.current_directory + 4 * dir_index virt)
        (apart u.current_directory table (dir_index virt) (table_index virt) d t k (omega arith)
          (omega arith))

  -- What follows the writing of an entry.
  translated :
      (virt phys rw_bit user table : ℕ) (v : Vmm Frames)
      → virt < 2 ^ 32
      → rw_bit < 2
      → user < 2
      → v.current_directory % 4096 ≡ 0
      → table % 4096 ≡ 0
      → table ≢ 0
      → table ≢ v.current_directory
      → present (v.words (v.current_directory + 4 * dir_index virt)) ≡ true
      → page_of (v.words (v.current_directory + 4 * dir_index virt)) ≡ table
      → let a = table + 4 * table_index virt in
        let u : Vmm Frames = record v {
          words = write v.words a (entry (v.words a) rw_bit user phys);
        } in
        (vmm_get_physical alloc_page free_page virt u ≡ page_of phys + virt % 4096)
        × (vmm_get_physical alloc_page free_page virt (vmm_unmap_page alloc_page free_page virt u)
            ≡ 0)
  translated virt phys rw_bit user table v h b b' d t n k p q =
      let a : ℕ = table + 4 * table_index virt in
      let e : ℕ = entry (v.words a) rw_bit user phys in
      let u : Vmm Frames = record v { words = write v.words a e } in
      let s = written virt table e v h d t k in
      let pu : present (u.words (u.current_directory + 4 * dir_index virt)) ≡ true = rw s p in
      let qu : page_of (u.words (u.current_directory + 4 * dir_index virt)) ≡ table = rw s q in
      let here : write v.words a e a ≡ e = write_same v.words a e in
      let gone : ℕ = 2 * (u.words a / 2 % 2048) in
      let u2 : Vmm Frames = record u { words = write u.words a gone } in
      let s2 = written virt table gone u h d t k in
      let here2 : write u.words a gone a ≡ gone = write_same u.words a gone in
      let off : present gone ≡ false = ground arith in
      (
        vmm_get_physical_lem virt table u pu qu n
            ∙ rw
                (
                  here,
                  entry-present (v.words a) rw_bit user phys,
                  entry-page (v.words a) rw_bit user phys b b',
                )
                refl,
        ap (vmm_get_physical alloc_page free_page virt) (vmm_unmap_page_lem virt table u pu qu n)
            ∙ vmm_get_physical_lem virt table u2 (rw s2 pu) (rw s2 qu) n
            ∙ rw (here2, off) refl,
      )

  -- The address of the table that `vmm_map_page` writes to.
  abbrev pub table_for : ℕ → Vmm Frames → ℕ
  table_for virt v =
      (get_page_table alloc_page free_page v.current_directory (dir_index virt) true v).0

  -- With the directory and the page table two different pages, an address that was mapped is translated to its place in the page, and to NULL once it is unmapped.
  pub vmm_get_physical-map :
      (virt phys flags : ℕ) (v : Vmm Frames)
      → virt < 2 ^ 32
      → v.current_directory % 4096 ≡ 0
      → table_for virt v % 4096 ≡ 0
      → table_for virt v ≢ 0
      → table_for virt v ≢ v.current_directory
      → (vmm_get_physical alloc_page free_page virt
            (vmm_map_page alloc_page free_page virt phys flags v)
          ≡ page_of phys + virt % 4096)
        × (vmm_get_physical alloc_page free_page virt (
              vmm_unmap_page alloc_page free_page virt
                (vmm_map_page alloc_page free_page virt phys flags v))
            ≡ 0)
  vmm_get_physical-map virt phys flags v h d t n k =
      let (p, q, c) = get_page_table-Leads v.current_directory (dir_index virt) v t n in
      let table : ℕ = table_for virt v in
      let v' : Vmm Frames =
        (get_page_table alloc_page free_page v.current_directory (dir_index virt) true v).1 in
      let made = vmm_map_page_lem virt phys flags v n in
      rw made (
        translated virt phys (flags / 2 % 2) (flags / 4 % 2) table v' h (omega arith) (omega arith)
          (rw c d) t n (rw c k) (rw c p) (rw c q))
