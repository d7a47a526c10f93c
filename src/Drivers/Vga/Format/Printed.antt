-- ===== src/Drivers/Vga/Format/Printed.antt =====
-- What printing with a format keeps.
use dosfs.Prelude.{List, length, Option, none, some, ℕ, inl, inr, Option-cases}
use dosfs.Drivers.Vga.{Screen}
use dosfs.Drivers.Vga.Format.{Arg, formatted, vga_printf}
use dosfs.Drivers.Vga.Invariant.{IsValid, put_all-IsValid}

-- A screen that is well-formed, if there is one.
abbrev pub StillValid : Option Screen → Type 0
StillValid none = Unit
StillValid (some v) = IsValid v

-- Whatever the format and the arguments, `vga_printf` keeps the cells and the cursor on the screen,
-- unless it reads on behind the end of the format.
pub vga_printf-StillValid :
    (wild : Arg) (fmt : List ℕ) (args : List Arg) (v : Screen)
    → IsValid v
    → StillValid (vga_printf wild fmt args v)
unfolding vga_printf
vga_printf-StillValid wild fmt args v i =
    elim (Option-cases (formatted wild (length fmt) fmt args)) [
      | inl e ↦ rw (vga_printf, e) tt
      | inr (s, e) ↦ rw (vga_printf, e) (put_all-IsValid s v i)
    ]
