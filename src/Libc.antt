-- ===== src/Libc.antt =====
-- src/libc/string.c: the memory and text functions.
-- A block of memory is the list of its bytes from the pointer on, and what a function does past the
-- end of the block is left out. A `const char*` is the list of its bytes; the end of the list is the
-- terminating NUL, and a NUL inside the list ends the text as well.
use dosfs.Prelude.{
  ℕ, zero, suc, ◌+◌, ◌-◌, ◌%◌, not, ◌&&◌, List, [], ◌∷◌, ltb, leb, ◌==◌, if◌then◌else◌, ℤ, pos,
  sub_ℕ,
}
pub mod Text
pub mod Copy
pub mod Number
mod Print
mod Tests

pub memset : List ℕ → ℕ → ℕ → List ℕ
memset [] c n = []
memset (x ∷ d) c zero = x ∷ d
memset (x ∷ d) c (suc n) = (c % 256) ∷ memset d c n

unfoldable pub memcpy : List ℕ → List ℕ → ℕ → List ℕ
memcpy [] src n = []
memcpy (x ∷ d) src zero = x ∷ d
memcpy (x ∷ d) [] (suc n) = x ∷ d
memcpy (x ∷ d) (b ∷ src) (suc n) = b ∷ memcpy d src n

-- The byte at the pointer.
abbrev pub byte_at : List ℕ → ℕ
byte_at [] = 0
byte_at (b ∷ bs) = b

abbrev pub after_byte : List ℕ → List ℕ
after_byte [] = []
after_byte (b ∷ bs) = bs

unfoldable pub memcmp : List ℕ → List ℕ → ℕ → ℤ
memcmp a b zero = pos 0
memcmp a b (suc n) =
    let rest = memcmp (after_byte a) (after_byte b) n in
    if byte_at a == byte_at b then rest else sub_ℕ (byte_at a) (byte_at b)

unfoldable pub strlen : List ℕ → ℕ
strlen [] = 0
strlen (c ∷ s) = if c == 0 then 0 else suc (strlen s)

unfoldable pub strcmp : List ℕ → List ℕ → ℤ
strcmp [] b = sub_ℕ 0 (byte_at b)
strcmp (c ∷ a) b =
    let rest = strcmp a (after_byte b) in
    if not (c == 0) && (c == byte_at b) then rest else sub_ℕ c (byte_at b)

unfoldable pub strncmp : List ℕ → List ℕ → ℕ → ℤ
strncmp a b zero = pos 0
strncmp [] b (suc n) = sub_ℕ 0 (byte_at b)
strncmp (c ∷ a) b (suc n) =
    let rest = strncmp a (after_byte b) n in
    if not (c == 0) && (c == byte_at b) then rest else sub_ℕ c (byte_at b)

-- `if (c >= 'a' && c <= 'z') c -= 32;`
abbrev pub upper : ℕ → ℕ
upper c = if leb b'a' c && leb c b'z' then c - 32 else c

unfoldable pub strcasecmp : List ℕ → List ℕ → ℤ
strcasecmp [] b = sub_ℕ 0 (byte_at b)
strcasecmp (c ∷ a) b =
    let rest = strcasecmp a (after_byte b) in
    if (c == 0)
    then sub_ℕ 0 (byte_at b)
    else if (byte_at b == 0)
    then sub_ℕ c 0
    else if upper c == upper (byte_at b)
    then rest
    else sub_ℕ (upper c) (upper (byte_at b))

-- The first loop leaves at the NUL that it has just copied without counting it, and the second loop
-- then clears as many bytes as are still counted.
pub strncpy : List ℕ → List ℕ → ℕ → List ℕ
unfolding memset
strncpy [] src n = []
strncpy (x ∷ d) src zero = x ∷ d
strncpy (x ∷ d) [] (suc n) = 0 ∷ memset d 0 (suc n)
strncpy (x ∷ d) (c ∷ src) (suc n) =
    let rest = strncpy d src n in if c == 0 then 0 ∷ memset d 0 (suc n) else c ∷ rest

pub strcpy : List ℕ → List ℕ → List ℕ
strcpy [] src = []
strcpy (x ∷ d) src =
    let rest = strcpy d (after_byte src) in if byte_at src == 0 then 0 ∷ d else byte_at src ∷ rest

pub strcat : List ℕ → List ℕ → List ℕ
unfolding strcpy
strcat [] src = []
strcat (x ∷ d) src =
    let rest = strcat d src in let here = strcpy (x ∷ d) src in if x == 0 then here else x ∷ rest
