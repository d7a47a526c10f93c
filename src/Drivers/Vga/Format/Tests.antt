-- ===== src/Drivers/Vga/Format/Tests.antt =====
-- The screen at small inputs.
use dosfs.Prelude.{
  ℕ, ◌+◌, ◌*◌, ◌≡◌, refl, true, some, List, [], ◌∷◌, arith, replicate, length-replicate, get_or,
}
use dosfs.Drivers.Vga.{Screen, vga_puts}
use dosfs.Drivers.Vga.Format.{
  num, null, formatted, vga_printf, convert, read_spec, read_width, print_fmt_int, pad_number,
}
use dosfs.Drivers.Vga.Format.Printed.{StillValid, vga_printf-StillValid}
use dosfs.Libc.{strlen}
use dosfs.Libc.Number.{itoa, digits}
use dosfs.Drivers.Vga.Invariant.{IsValid}
use dosfs.Drivers.Vga.Show.{shown, vga_puts-shows}

empty : List ℕ → Screen
empty b = record { buffer = b; row = 24; col = 70; attr = 7; available = true; cursor = 0 }

empty-IsValid : IsValid (empty (replicate 2000 0))
unfolding empty
empty-IsValid = record {
  cells = length-replicate {A = ℕ} 2000 0;
  row_in = omega arith;
  col_in = omega arith;
}

-- "%-4d|"
abbrev fmt : List ℕ
fmt = b'%' ∷ b'-' ∷ b'4' ∷ b'd' ∷ b'|' ∷ []

padded : formatted null 5 fmt (num 42 ∷ []) ≡ some (b'4' ∷ b'2' ∷ b' ' ∷ b' ' ∷ b'|' ∷ [])
unfolding formatted convert read_spec read_width print_fmt_int pad_number itoa digits strlen
padded = refl

vga_printf-StillValid_example :
    StillValid (vga_printf null fmt (num 42 ∷ []) (empty (replicate 2000 0)))
vga_printf-StillValid_example =
    vga_printf-StillValid null fmt (num 42 ∷ []) (empty (replicate 2000 0)) empty-IsValid

-- "hi"
abbrev hi : List ℕ
hi = b'h' ∷ b'i' ∷ []

vga_puts-shows_example :
    ((vga_puts hi (empty (replicate 2000 0))).row ≡ 24)
    × ((vga_puts hi (empty (replicate 2000 0))).col ≡ 70 + 2)
    × ((j : ℕ)
        → get_or (vga_puts hi (empty (replicate 2000 0))).buffer j 0
          ≡ shown hi 7 (24 * 80 + 70) (replicate 2000 0) j)
unfolding empty
vga_puts-shows_example =
    vga_puts-shows hi (empty (replicate 2000 0)) empty-IsValid refl (omega arith) (omega arith)
