-- ===== src/Drivers/Vga/Show.antt =====
-- What printing shows.
use dosfs.Prelude.{
  ltb→lt, ℕ, suc, ◌+◌, ◌-◌, ◌*◌, ◌%◌, ◌≤◌, ◌<◌, ◌≡◌, ◌∙◌, refl, inl, inr, true, false, ◌&&◌, List,
  [], ◌∷◌, arith, length, length-set, set, get_or, get_or-set, Bool-cases, ltb, leb, ◌==◌,
  if◌then◌else◌,
}
use dosfs.Drivers.Vga.{Screen, vga_entry, put_cell, move, vga_scroll, vga_putchar, vga_puts}
use dosfs.Drivers.Vga.Invariant.{IsValid}

-- a character that is shown as such
abbrev pub Plain : ℕ → Type 0
Plain c = (32 ≤ c) × (c < 128)

abbrev pub AllPlain : List ℕ → Type 0
AllPlain [] = Unit
AllPlain (c ∷ s) = Plain c × AllPlain s

-- A plain character before the last column only fills its cell.
putchar-Plain :
    (c : ℕ) (v : Screen)
    → Plain c
    → v.available ≡ true
    → v.row < 25
    → v.col + 1 < 80
    → vga_putchar c v ≡ record v {
      buffer = set v.buffer (v.row * 80 + v.col) (vga_entry c v.attr);
      col = v.col + 1;
      cursor = (v.row * 80 + (v.col + 1)) % 65536;
    }
unfolding vga_putchar move put_cell vga_scroll
putchar-Plain c v p on r h =
    let a : (c == b'\n') ≡ false = ground arith in
    let b : (c == b'\r') ≡ false = ground arith in
    let t : (c == b'\t') ≡ false = ground arith in
    let e : (c == 8) ≡ false = ground arith in
    let w : leb 80 (v.col + 1) ≡ false = ground arith in
    let l : ltb v.row 25 ≡ true = ground arith in simp (on, a, b, t, e, w, l)

-- the cell `j` after the text `s` is printed from the cell `i` on
abbrev pub shown : List ℕ → ℕ → ℕ → List ℕ → ℕ → ℕ
shown s attr i cells j =
    if leb i j && ltb j (i + length s)
    then vga_entry (get_or s (j - i) 0) attr
    else get_or cells j 0

shown-cons :
    (c : ℕ) (s : List ℕ) (attr i i' : ℕ) (cells : List ℕ) (j : ℕ)
    → i < length cells
    → i' ≡ i + 1
    → shown s attr i' (set cells i (vga_entry c attr)) j ≡ shown (c ∷ s) attr i cells j
shown-cons c s attr i i' cells j h e =
    let at = get_or-set cells i j (vga_entry c attr) 0 h in
    elim (Bool-cases (i == j)) [
      | inl here ↦
          let same : j - i ≡ 0 = ground arith in
          let first : get_or (c ∷ s) (j - i) 0 ≡ c = rw same refl in ground (arith, at, first)
      | inr other ↦ elim (Bool-cases (ltb i j)) [
        | inl after ↦
            let lt = ltb→lt i j after in
            let deeper : j - i ≡ suc (j - i') = omega arith in
            let later : get_or (c ∷ s) (j - i) 0 ≡ get_or s (j - i') 0 = rw deeper refl in
            ground (arith, at, later)
        | inr before ↦ ground (arith, at)
      ]
    ]

-- On a well-formed and available screen, plain text that fits before the last column is shown from the
-- cursor on, in the current colour, the other cells stay as they are, and the cursor is behind the text
-- on the same row.
pub vga_puts-shows :
    (s : List ℕ) (v : Screen)
    → IsValid v
    → v.available ≡ true
    → AllPlain s
    → v.col + length s < 80
    → ((vga_puts s v).row ≡ v.row)
      × ((vga_puts s v).col ≡ v.col + length s)
      × ((j : ℕ)
          → get_or (vga_puts s v).buffer j 0 ≡ shown s v.attr (v.row * 80 + v.col) v.buffer j)
unfolding vga_puts
vga_puts-shows [] v i on p h = (refl, omega arith, λ j. ground arith)
vga_puts-shows (c ∷ s) v i on (pc, ps) h =
    let at : ℕ = v.row * 80 + v.col in
    let v1 : Screen = record v {
      buffer = set v.buffer at (vga_entry c v.attr);
      col = v.col + 1;
      cursor = (v.row * 80 + (v.col + 1)) % 65536;
    } in
    let step = putchar-Plain c v pc on i.row_in (omega arith) in
    let i1 : IsValid v1 = record {
      cells = length-set v.buffer at (vga_entry c v.attr) ∙ i.cells;
      row_in = i.row_in;
      col_in = omega arith;
    } in
    let (r, k, cells) = vga_puts-shows s v1 i1 on ps (omega arith) in
    let go : (c == 0) ≡ false = ground arith in
    rw (vga_puts, go, step)
      (
        r,
        omega (arith, k),
        λ j.
            cells j
            ∙ shown-cons c s v.attr at (v.row * 80 + (v.col + 1)) v.buffer j
                (omega (arith, i.cells, i.row_in)) (omega arith),
      )
