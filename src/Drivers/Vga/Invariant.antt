-- ===== src/Drivers/Vga/Invariant.antt =====
-- The cursor stays on the screen, whatever is printed.
use mathlib.Core.Path.{subst}
use dosfs.Prelude.{
  ltb→lt, sym, ◌∙◌, ℕ, ◌+◌, ◌-◌, ◌*◌, ◌%◌, ◌≤◌, ◌<◌, ◌≡◌, inl, inr, true, List, [], ◌∷◌, ◌++◌,
  arith, length, length-set, length-append, length-take, length-drop, length-replicate, take, drop,
  replicate, Bool-cases, ltb,
}
use dosfs.Drivers.Vga.{
  Screen, width, vga_entry, blank, vga_scroll, put_cell, move, wrap, vga_putchar, put_all,
}

pub record IsValid (v : Screen) : Type 0 where
  pub cells : length v.buffer ≡ 2000
  pub row_in : v.row < 25
  pub col_in : v.col < 80

-- between two characters, before the screen is scrolled
record AlmostValid (v : Screen) : Type 0 where
  cells : length v.buffer ≡ 2000
  row_in : v.row < 26
  col_in : v.col < 80

put_cell-length : (c : ℕ) (v : Screen) → length (put_cell c v).buffer ≡ length v.buffer
unfolding put_cell
put_cell-length c v = length-set v.buffer (v.row * width + v.col) (vga_entry c v.attr)

move-available : (c : ℕ) (v : Screen) → (wrap (move c v)).available ≡ v.available
unfolding move put_cell
move-available c v = ground arith

-- where a character leaves the cursor, before the line is wrapped
move_bounds :
    (c : ℕ) (v : Screen)
    → v.row < 25
    → v.col < 80
    → ((move c v).col ≤ 80) × ((move c v).row < 26) × ((move c v).row ≡ 25 → (move c v).col ≡ 0)
unfolding move put_cell
move_bounds c v r h = ground arith

move-length : (c : ℕ) (v : Screen) → length (move c v).buffer ≡ length v.buffer
unfolding move
move-length c v = ground (
  arith,
  put_cell-length c v,
  put_cell-length blank (record v { col = v.col - 1 }),
  put_cell-length blank (record v { row = v.row - 1; col = 79 }),
)

wrap-AlmostValid :
    (v : Screen)
    → length v.buffer ≡ 2000
    → v.col ≤ 80
    → v.row < 26
    → (v.row ≡ 25 → v.col ≡ 0)
    → AlmostValid (wrap v)
wrap-AlmostValid v cells col row last = record {
  cells = ground arith;
  row_in = ground arith;
  col_in = ground arith;
}

move-AlmostValid : (c : ℕ) (v : Screen) → IsValid v → AlmostValid (wrap (move c v))
move-AlmostValid c v i =
    let (col, row, last) = move_bounds c v i.row_in i.col_in in
    wrap-AlmostValid (move c v) (move-length c v ∙ i.cells) col row last

scrolled-length :
    (cells : List ℕ) (fill : ℕ)
    → length cells ≡ 2000
    → length (take 1920 (drop 80 cells) ++ replicate 80 fill) ≡ 2000
scrolled-length cells fill e =
    let kept = length-take 1920 (drop 80 cells) in
    let dropped = length-drop 80 cells in
    let filled = length-replicate 80 fill in
    let joined = length-append (take 1920 (drop 80 cells)) (replicate 80 fill) in
    omega (arith, e, kept, dropped, filled, joined)

vga_scroll-IsValid : (v : Screen) → v.available ≡ true → AlmostValid v → IsValid (vga_scroll v)
unfolding vga_scroll
vga_scroll-IsValid v on a = elim (Bool-cases (ltb v.row 25)) [
  | inl low ↦
      let still : vga_scroll v ≡ v = simp (on, low) in
      let lt = ltb→lt v.row 25 low in
      let same : IsValid v = record { cells = a.cells; row_in = lt; col_in = a.col_in } in
      subst IsValid (sym still) same
  | inr high ↦
      let fill : ℕ = vga_entry blank v.attr in
      let up : Screen = record v {
        buffer = take 1920 (drop 80 v.buffer) ++ replicate 80 fill;
        row = 24;
      } in
      let moved : vga_scroll v ≡ up = simp (on, high) in
      let valid : IsValid up = record {
        cells = scrolled-length v.buffer fill a.cells;
        row_in = omega arith;
        col_in = a.col_in;
      } in
      subst IsValid (sym moved) valid
]

-- `vga_putchar` keeps the cells and the cursor on the screen.
pub vga_putchar-IsValid : (c : ℕ) (v : Screen) → IsValid v → IsValid (vga_putchar c v)
unfolding vga_putchar
vga_putchar-IsValid c v i = elim (Bool-cases v.available) [
  | inr off ↦ let same : vga_putchar c v ≡ v = ground arith in subst IsValid (sym same) i
  | inl on ↦
      let w : Screen = wrap (move c v) in
      let on_w : w.available ≡ true = move-available c v ∙ on in
      let ok = vga_scroll-IsValid w on_w (move-AlmostValid c v i) in
      let s : Screen = vga_scroll w in
      let shown : vga_putchar c v ≡ record s { cursor = (s.row * width + s.col) % 65536 } =
        simp on in
      let valid : IsValid (record s { cursor = (s.row * width + s.col) % 65536 }) = record {
        cells = ok.cells;
        row_in = ok.row_in;
        col_in = ok.col_in;
      } in
      subst IsValid (sym shown) valid
]

pub put_all-IsValid : (s : List ℕ) (v : Screen) → IsValid v → IsValid (put_all s v)
unfolding put_all
put_all-IsValid [] v i = i
put_all-IsValid (c ∷ s) v i = put_all-IsValid s (vga_putchar c v) (vga_putchar-IsValid c v i)
