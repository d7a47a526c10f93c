-- ===== src/Drivers/Vga.antt =====
-- src/drivers/vga.c: the text screen of 25 rows and 80 columns.
-- `buffer` is the memory at 0xB8000, and `cursor` is what was last written to the cursor registers
-- through the ports 0x3D4 and 0x3D5. A character is its byte; `char` is signed, and its conversion to
-- 16 bits is written out in `vga_entry`.
pub mod Format
mod Invariant
mod Show
use Prim.Native.Nat.{bit_or}
use dosfs.Prelude.{
  ℕ, zero, suc, ◌+◌, ◌-◌, ◌*◌, ◌/◌, ◌%◌, ◌^◌, Bool, true, false, not, ◌&&◌, ◌||◌, List, [], ◌∷◌,
  ◌++◌, ltb, leb, ◌==◌, if◌then◌else◌, set, take, drop, replicate, ℤ, pos, negsuc,
}

pub record Screen : Type 0 where
  pub buffer : List ℕ
  pub row : ℕ
  pub col : ℕ
  pub attr : ℕ
  pub available : Bool
  pub cursor : ℕ

abbrev pub width : ℕ
width = 80

abbrev pub height : ℕ
height = 25

pub vga_entry_color : ℕ → ℕ → ℕ
vga_entry_color fg bg = bit_or fg (bg * 16) % 256

-- A byte from 128 on is negative: converted to 16 bits it has all ones above, and the colour is lost.
pub vga_entry : ℕ → ℕ → ℕ
vga_entry c color = if ltb c 128 then c + 256 * color else 0xFF00 + c

abbrev pub blank : ℕ
blank = b' '

pub vga_clear : Screen → Screen
unfolding vga_entry
vga_clear v =
    if not v.available
    then v
    else record v { buffer = replicate 2000 (vga_entry blank v.attr); row = 0; col = 0; cursor = 0 }

-- `accessible` says whether the memory at 0xB8000 keeps the pattern that is written there.
pub vga_init : Bool → Screen → Screen
unfolding vga_entry_color vga_clear
vga_init accessible v =
    if not accessible
    then record v { available = false }
    else vga_clear (record v { available = true; row = 0; col = 0; attr = vga_entry_color 7 0 })

pub vga_set_color : ℕ → ℕ → Screen → Screen
unfolding vga_entry_color
vga_set_color fg bg v = record v { attr = vga_entry_color fg bg }

pub vga_scroll : Screen → Screen
vga_scroll v = if not v.available || ltb v.row height then v else record v {
  buffer =
      take (width * (height - 1)) (drop width v.buffer) ++ replicate width (vga_entry blank v.attr);
  row = height - 1;
}

-- `vga_buffer[vga_row * VGA_WIDTH + vga_col] = vga_entry(c, vga_color_attr)`
pub put_cell : ℕ → Screen → Screen
put_cell c v = record v { buffer = set v.buffer (v.row * width + v.col) (vga_entry c v.attr) }

-- what each character does before the line is wrapped
pub move : ℕ → Screen → Screen
move c v =
    if c == b'\n'
    then record v { col = 0; row = v.row + 1 }
    else if c == b'\r'
    then record v { col = 0 }
    else if c == b'\t'
    then (let tab = (v.col + 8) / 8 * 8 in
        record v { col = if leb width tab then width - 1 else tab })
    else if c == 8
    then (if ltb 0 v.col
        then put_cell blank (record v { col = v.col - 1 })
        else if ltb 0 v.row
        then put_cell blank (record v { row = v.row - 1; col = width - 1 })
        else v)
    else (let v' = put_cell c v in record v' { col = v'.col + 1 })

-- `if (vga_col >= VGA_WIDTH) { vga_col = 0; vga_row++; }`
abbrev pub wrap : Screen → Screen
wrap v = if leb width v.col then record v { col = 0; row = v.row + 1 } else v

pub vga_putchar : ℕ → Screen → Screen
vga_putchar c v =
    if not v.available
    then v
    else (let v' = vga_scroll (wrap (move c v)) in
        record v' { cursor = (v'.row * width + v'.col) % 65536 })

-- The coordinates are signed.
pub vga_putchar_at : ℤ → ℤ → ℕ → Screen → Screen
unfolding vga_entry
vga_putchar_at (pos x) (pos y) c v =
    if not v.available || leb width x || leb height y
    then v
    else record v { buffer = set v.buffer (y * width + x) (vga_entry c v.attr) }
vga_putchar_at (pos x) (negsuc y) c v = v
vga_putchar_at (negsuc x) y c v = v

-- `x++`
abbrev pub next : ℤ → ℤ
next (pos x) = pos (x + 1)
next (negsuc zero) = pos 0
next (negsuc (suc x)) = negsuc x

abbrev pub off_row : ℤ → ℤ → Bool
off_row (pos x) (pos y) = leb width x || leb height y
off_row (negsuc x) (pos y) = leb height y
off_row x (negsuc y) = true

-- The text ends at its first NUL, or with the list.
pub vga_puts_at : ℤ → ℤ → List ℕ → Screen → Screen
unfolding vga_putchar_at
vga_puts_at x y [] v = v
vga_puts_at x y (c ∷ s) v =
    let rest = vga_puts_at (next x) y s (vga_putchar_at x y c v) in
    if (c == 0) || off_row x y then v else rest

-- `vga_putchar` of each character of a list
pub put_all : List ℕ → Screen → Screen
put_all [] v = v
put_all (c ∷ s) v = put_all s (vga_putchar c v)

pub vga_puts : List ℕ → Screen → Screen
vga_puts [] v = v
vga_puts (c ∷ s) v = let rest = vga_puts s (vga_putchar c v) in if c == 0 then v else rest
