-- ===== src/Drivers/Vga/Format.antt =====
-- `vga_printf` of src/drivers/vga.c. All that it does to the screen is `vga_putchar`, so the formatted
-- text is computed first and then put on the screen.
-- An argument is a 32-bit number, a text, or NULL. What `va_arg` gives for an argument of another kind,
-- or for none, is left to the compiler: `wild` stands for it. A format has no NUL inside.
mod Printed
mod Tests
use dosfs.Prelude.{
  ℕ, zero, suc, ◌+◌, ◌-◌, ◌*◌, ◌%◌, Bool, true, false, not, ◌&&◌, Option, none, some, List, [], ◌∷◌,
  ◌++◌, leb, ◌==◌, if◌then◌else◌, replicate, length,
}
use dosfs.Libc.{strlen}
use dosfs.Libc.Number.{itoa, uitoa}
use dosfs.Libc.Text.{text}
use dosfs.Drivers.Vga.{Screen, put_all}

pub data Arg : Type 0 where
  num : ℕ → Arg
  str : List ℕ → Arg
  null : Arg

-- The flags between `%` and the conversion.
pub record Spec : Type 0 where
  pub left_align : Bool
  pub pad_char : ℕ
  pub width : ℕ

-- `print_fmt_int` and its two kin, from the number's text on
pub pad_number : List ℕ → Spec → List ℕ
pad_number buf f =
    let pad = f.width - strlen buf in
    (if f.left_align then [] else replicate pad f.pad_char)
    ++ buf
    ++ (if f.left_align then replicate pad b' ' else [])

pub print_fmt_int : ℕ → Spec → List ℕ
print_fmt_int val f = pad_number (itoa val 10) f

pub print_fmt_uint : ℕ → Spec → List ℕ
print_fmt_uint val f = pad_number (uitoa val 10) f

pub print_fmt_hex : ℕ → Spec → List ℕ
print_fmt_hex val f = pad_number (uitoa val 16) f

pub print_fmt_str : List ℕ → Spec → List ℕ
print_fmt_str s f =
    let pad = f.width - strlen s in
    (if f.left_align then [] else replicate pad b' ')
    ++ text s
    ++ (if f.left_align then replicate pad b' ' else [])

-- "(null)"
abbrev pub null_text : List ℕ
null_text = b'(' ∷ b'n' ∷ b'u' ∷ b'l' ∷ b'l' ∷ b')' ∷ []

-- `while (*fmt >= '0' && *fmt <= '9')`: the width, and the rest of the format
pub read_width : List ℕ → ℕ → ℕ × List ℕ
read_width [] w = (w, [])
read_width (c ∷ fmt) w =
    let rest = read_width fmt (w * 10 + (c - b'0')) in
    if leb b'0' c && leb c b'9' then rest else (w, c ∷ fmt)

-- the format behind an optional character, and whether it was there
abbrev pub skip_one : ℕ → List ℕ → Bool × List ℕ
skip_one d [] = (false, [])
skip_one d (c ∷ fmt) = if c == d then (true, fmt) else (false, c ∷ fmt)

pub read_spec : List ℕ → Spec × List ℕ
unfolding read_width
read_spec fmt =
    let (minus, fmt1) = skip_one b'-' fmt in
    let (zeros, fmt2) = skip_one b'0' fmt1 in
    let (w, fmt3) = read_width fmt2 0 in
    (record { left_align = minus; pad_char = if zeros then b'0' else b' '; width = w }, fmt3)

module _ (wild : Arg) where
  abbrev pub next_arg : List Arg → Arg × List Arg
  next_arg [] = (wild, [])
  next_arg (a ∷ args) = (a, args)

  -- The value of a number; a text or NULL is a pointer, whose number is not modelled.
  abbrev pub number_of : Arg → ℕ
  number_of (num n) = n
  number_of (str s) = 0
  number_of null = 0

  abbrev pub text_of : Arg → List ℕ
  text_of (num n) = []
  text_of (str s) = s
  text_of null = null_text

  -- the characters of one conversion, and the arguments behind it
  pub convert : ℕ → Spec → List Arg → List ℕ × List Arg
  convert c f args =
      let (a, rest) = next_arg args in
      if c == b's'
      then (print_fmt_str (text_of a) f, rest)
      else if c == b'd'
      then (print_fmt_int (number_of a) f, rest)
      else if c == b'u'
      then (print_fmt_uint (number_of a) f, rest)
      else if c == b'x'
      then (print_fmt_hex (number_of a) f, rest)
      else if c == b'p'
      then (b'0' ∷ b'x' ∷ print_fmt_hex (number_of a) f, rest)
      else if c == b'c'
      then ((number_of a % 256) ∷ [], rest)
      else if c == b'%'
      then (b'%' ∷ [], args)
      else (b'%' ∷ c ∷ [], args)

  -- The loop, for a format of at most `n` characters. `none` when the format ends between the flags of
  -- a conversion: the source then reads on behind the format's NUL.
  pub formatted : ℕ → List ℕ → List Arg → Option (List ℕ)
  unfolding convert read_spec
  formatted zero fmt args = some []
  formatted (suc n) [] args = some []
  formatted (suc n) (c ∷ fmt) args =
      let plain : Option (List ℕ) = elim (formatted n fmt args) [
        | none ↦ none
        | some s ↦ some (c ∷ s)
      ] in
      let (f, rest) = read_spec fmt in
      if not (c == b'%') then plain else elim fmt [
        | [] ↦ some []
        | _ ∷ _ ↦ elim rest [
          | [] ↦ none
          | d ∷ fmt' ↦
              let (s, args') = convert d f args in
              elim (formatted n fmt' args') [ none ↦ none | some t ↦ some (s ++ t) ]
        ]
      ]

  pub vga_printf : List ℕ → List Arg → Screen → Option Screen
  vga_printf fmt args v = elim (formatted (length fmt) fmt args) [
    | none ↦ none
    | some s ↦ some (put_all s v)
  ]
