-- ===== src/Libc/Number.antt =====
-- src/libc/string.c: numbers to text and back. An `int` is its 32-bit pattern, so that -1 is
-- 2 ^ 32 - 1; there is no result where an `int` overflows, which C leaves undefined.
-- The digits are written from the last one on and then turned round in the buffer, which is
-- `reverse`. A 32-bit number has at most 32 digits, whatever the base.
mod RoundTrip
mod Tests
use mathlib.Core.List.{reverse}
use dosfs.Prelude.{
  Option, none, some, ℕ, zero, suc, ◌+◌, ◌-◌, ◌*◌, ◌/◌, ◌%◌, ◌^◌, Bool, true, false, ◌&&◌, List, [],
  ◌∷◌, ◌++◌, ltb, leb, ◌==◌, if◌then◌else◌,
}

-- `(rem > 9) ? ('a' + rem - 10) : ('0' + rem)`
abbrev pub digit : ℕ → ℕ
digit rem = if ltb 9 rem then b'a' + rem - 10 else b'0' + rem

-- the loop of `itoa` and `uitoa`, and the characters that it writes
unfoldable pub digits : ℕ → ℕ → ℕ → List ℕ
digits zero value base = []
digits (suc n) value base =
    let rest = digits n (value / base) base in
    if value == 0 then [] else digit (value % base) ∷ rest

abbrev pub max_digits : ℕ
max_digits = 32

pub uitoa : ℕ → ℕ → List ℕ
uitoa value base = if value == 0 then b'0' ∷ [] else reverse (digits max_digits value base)

unfoldable pub itoa : ℕ → ℕ → List ℕ
itoa value base =
    let negative = leb (2 ^ 31) value && (base == 10) in
    let uv = if negative then 2 ^ 32 - value else value in
    if value == 0
    then b'0' ∷ []
    else reverse (digits max_digits uv base ++ (if negative then b'-' ∷ [] else []))

-- the first loop of `atoi`
unfoldable pub skip_blanks : List ℕ → List ℕ
skip_blanks [] = []
skip_blanks (c ∷ s) = let rest = skip_blanks s in if c == b' ' then rest else c ∷ s

-- Its second loop, from the number read so far on. There is no result where the number is too large
-- for an `int`, whose overflow C leaves undefined.
pub scan : List ℕ → ℕ → Option ℕ
scan [] res = some res
scan (c ∷ s) res =
    let next = res * 10 + (c - b'0') in
    let rest = if leb (2 ^ 31) next then none else scan s next in
    if leb b'0' c && leb c b'9' then rest else some res

abbrev pub negate : ℕ → ℕ
negate n = (2 ^ 32 - n) % 2 ^ 32

-- the sign and the digits after the blanks
pub signed : List ℕ → Option ℕ
unfolding scan
signed [] = some 0
signed (c ∷ s) =
    if c == b'-'
    then elim (scan s 0) [ none ↦ none | some n ↦ some (negate n) ]
    else if c == b'+'
    then scan s 0
    else scan (c ∷ s) 0

-- The `int` that is read, as its pattern.
pub atoi : List ℕ → Option ℕ
unfolding skip_blanks signed
atoi s = signed (skip_blanks s)
