-- ===== src/Libc/Print.antt =====
-- src/libc/string.c: `snprintf`. The arguments are those of `vga_printf`.
use dosfs.Prelude.{
  ℕ, ◌-◌, ◌%◌, Option, none, some, List, [], ◌∷◌, ◌++◌, leb, ◌==◌, if◌then◌else◌, length, take,
}
use dosfs.Libc.Number.{itoa, uitoa}
use dosfs.Drivers.Vga.Format.{Arg, next_arg, number_of, text_of}

module _ (wild : Arg) where
  -- the characters of the conversion `d`, and the arguments behind it
  pub conversion : ℕ → List Arg → List ℕ × List Arg
  conversion d args =
      let (a, rest) = next_arg wild args in
      if d == b'd'
      then (itoa (number_of wild a) 10, rest)
      else if d == b'u'
      then (uitoa (number_of wild a) 10, rest)
      else if d == b'x'
      then (uitoa (number_of wild a) 16, rest)
      else if d == b's'
      then (text_of wild a, rest)
      else if d == b'c'
      then ((number_of wild a % 256) ∷ [], rest)
      else if d == b'%'
      then (b'%' ∷ [], args)
      else (b'%' ∷ d ∷ [], args)

  -- The loop, from the characters `out` on, of which `limit` fit. `none` when the format ends with a
  -- percent sign: the source then reads on behind the format's NUL.
  pub print_from : ℕ → List ℕ → List Arg → List ℕ → Option (List ℕ)
  unfolding conversion
  print_from limit [] args out = some out
  print_from limit (c ∷ []) args out =
      if leb limit (length out) then some out else if c == b'%' then none else some (out ++ c ∷ [])
  print_from limit (c ∷ d ∷ fmt) args out =
      let (s, args') = conversion d args in
      let converted = print_from limit fmt args' (out ++ take (limit - length out) s) in
      let plain = print_from limit (d ∷ fmt) args (out ++ c ∷ []) in
      if leb limit (length out) then some out else if c == b'%' then converted else plain

  -- The number returned and the text before its NUL.
  pub snprintf : ℕ → List ℕ → List Arg → Option (ℕ × List ℕ)
  unfolding print_from
  snprintf n fmt args =
      if n == 0
      then some (0, [])
      else elim (print_from (n - 1) fmt args []) [ none ↦ none | some out ↦ some (length out, out) ]
