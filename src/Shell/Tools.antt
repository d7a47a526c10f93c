-- ===== src/Shell/Tools.antt =====
-- src/shell/shell.c: the commands that compute, and those of the CPU simulator.
-- A number is a 32-bit pattern. A command's arguments are what stands behind its name.
use Prim.Native.Nat.{bit_xor, bit_or}
use dosfs.Prelude.{
  ℕ, ◌+◌, ◌-◌, ◌*◌, ◌/◌, ◌%◌, ◌^◌, Bool, not, ◌&&◌, ◌||◌, Option, none, some, List, [], ◌∷◌, leb,
  ltb, ◌==◌, if◌then◌else◌, length, drop,
}
use dosfs.Libc.{byte_at, after_byte}
use dosfs.Libc.Number.{skip_blanks, atoi, negate}
use dosfs.Tools.CpuSim.{Cpu, word, has_0x, read_hex, read_number, cpu_sim_get_reg, cpu_sim_set_reg}
use dosfs.Drivers.Vga.{Screen, vga_set_color}
use dosfs.Shell.Line.{Shell}
use dosfs.Shell.Commands.{starts_with}
use dosfs.Shell.Files.{is_empty}

abbrev pub color_names : List (List ℕ)
color_names =
    (b'b' ∷ b'l' ∷ b'a' ∷ b'c' ∷ b'k' ∷ [])
    ∷ (b'b' ∷ b'l' ∷ b'u' ∷ b'e' ∷ [])
    ∷ (b'g' ∷ b'r' ∷ b'e' ∷ b'e' ∷ b'n' ∷ [])
    ∷ (b'c' ∷ b'y' ∷ b'a' ∷ b'n' ∷ [])
    ∷ (b'r' ∷ b'e' ∷ b'd' ∷ [])
    ∷ (b'm' ∷ b'a' ∷ b'g' ∷ b'e' ∷ b'n' ∷ b't' ∷ b'a' ∷ [])
    ∷ (b'b' ∷ b'r' ∷ b'o' ∷ b'w' ∷ b'n' ∷ [])
    ∷ (b'l' ∷ b'i' ∷ b'g' ∷ b'h' ∷ b't' ∷ b'_' ∷ b'g' ∷ b'r' ∷ b'e' ∷ b'y' ∷ [])
    ∷ (b'd' ∷ b'a' ∷ b'r' ∷ b'k' ∷ b'_' ∷ b'g' ∷ b'r' ∷ b'e' ∷ b'y' ∷ [])
    ∷ (b'l' ∷ b'i' ∷ b'g' ∷ b'h' ∷ b't' ∷ b'_' ∷ b'b' ∷ b'l' ∷ b'u' ∷ b'e' ∷ [])
    ∷ (b'l' ∷ b'i' ∷ b'g' ∷ b'h' ∷ b't' ∷ b'_' ∷ b'g' ∷ b'r' ∷ b'e' ∷ b'e' ∷ b'n' ∷ [])
    ∷ (b'l' ∷ b'i' ∷ b'g' ∷ b'h' ∷ b't' ∷ b'_' ∷ b'c' ∷ b'y' ∷ b'a' ∷ b'n' ∷ [])
    ∷ (b'l' ∷ b'i' ∷ b'g' ∷ b'h' ∷ b't' ∷ b'_' ∷ b'r' ∷ b'e' ∷ b'd' ∷ [])
    ∷ (b'l' ∷ b'i' ∷ b'g' ∷ b'h' ∷ b't' ∷ b'_' ∷ b'm' ∷ b'a' ∷ b'g' ∷ b'e' ∷ b'n' ∷ b't' ∷ b'a'
        ∷ [])
    ∷ (b'y' ∷ b'e' ∷ b'l' ∷ b'l' ∷ b'o' ∷ b'w' ∷ [])
    ∷ (b'w' ∷ b'h' ∷ b'i' ∷ b't' ∷ b'e' ∷ [])
    ∷ []

-- the first color whose name the arguments start with, as a word, and what stands behind it
pub match_color : ℕ → List (List ℕ) → List ℕ → Option (ℕ × List ℕ)
match_color i [] args = none
match_color i (name ∷ names) args =
    let rest = match_color (i + 1) names args in
    if starts_with args name then some (i, drop (length name) args) else rest

-- the colors of the shell and of the screen
pub use_colors : ℕ → ℕ → Shell → Screen → Shell × Screen
use_colors fg bg s v = (record s { shell_fg = fg; shell_bg = bg }, vga_set_color fg bg v)

pub cmd_color : List ℕ → Shell → Screen → Shell × Screen
unfolding match_color use_colors
cmd_color line s v =
    let args = skip_blanks line in
    let chosen : Shell × Screen = elim (match_color 0 color_names args) [
      | none ↦ (s, v)
      | some (fg, rest) ↦
          let more = skip_blanks rest in
          let with_ground : Shell × Screen = elim (match_color 0 color_names more) [
            | none ↦ (s, v)
            | some (bg, _) ↦ use_colors fg bg s v
          ] in
          if is_empty more then use_colors fg s.shell_bg s v else with_ground
    ] in
    if is_empty args
    then (s, v)
    else if starts_with args (b'r' ∷ b'e' ∷ b's' ∷ b'e' ∷ b't' ∷ [])
    then use_colors 7 0 s v
    else chosen

-- the sign of a pattern
abbrev pub is_negative : ℕ → Bool
is_negative n = leb (2 ^ 31) n

abbrev pub magnitude : ℕ → ℕ
magnitude n = if is_negative n then negate n else n

-- one step of the generator
pub lfsr : ℕ → ℕ
lfsr r = bit_xor (r / 2) (if r % 2 == 1 then 0xEDB88320 else 0)

-- The number that is printed, and the state of the generator, unless the limit is too large for an
-- `int`.
pub cmd_random : List ℕ → ℕ → Option (ℕ × ℕ)
unfolding lfsr
cmd_random line rand_state =
    let r = lfsr (lfsr (lfsr (lfsr (lfsr rand_state)))) in
    elim (atoi (skip_blanks line)) [
      | none ↦ none
      | some n ↦ let limit = if (n == 0) || is_negative n then 100 else n in some (r % limit, r)
    ]

pub data Calc : Type 0 where
  calc_usage by_zero unknown_operator : Calc
  equals : ℕ → Calc

-- `while (*expr && *expr != ' ') expr++;`
pub skip_word : List ℕ → List ℕ
skip_word [] = []
skip_word (c ∷ s) = let rest = skip_word s in if c == b' ' then c ∷ s else rest

-- Division rounds towards 0. There is no result for the division of the least number by -1, which
-- traps.
pub divide : ℕ → ℕ → Option Calc
divide a b =
    let q = magnitude a / magnitude b in
    if b == 0
    then some by_zero
    else if (a == 2 ^ 31) && (b == 2 ^ 32 - 1)
    then none
    else if (is_negative a && not (is_negative b)) || (not (is_negative a) && is_negative b)
    then some (equals (negate q))
    else some (equals q)

-- The remainder has the sign of the first number.
pub remainder : ℕ → ℕ → Option Calc
remainder a b =
    let r = magnitude a % magnitude b in
    if b == 0
    then some by_zero
    else if (a == 2 ^ 31) && (b == 2 ^ 32 - 1)
    then none
    else if is_negative a
    then some (equals (negate r))
    else some (equals r)

-- A sum, a difference and a product of two numbers, unless it is too large for an `int`.
pub add_ints : ℕ → ℕ → Option Calc
add_ints a b =
    let sum = (a + b) % 2 ^ 32 in
    let overflows =
      (is_negative a && is_negative b && not (is_negative sum))
      || (not (is_negative a) && not (is_negative b) && is_negative sum) in
    if overflows then none else some (equals sum)

pub subtract_ints : ℕ → ℕ → Option Calc
subtract_ints a b =
    let difference = (a + negate b) % 2 ^ 32 in
    let overflows =
      (is_negative a && not (is_negative b) && not (is_negative difference))
      || (not (is_negative a) && is_negative b && is_negative difference) in
    if overflows then none else some (equals difference)

pub multiply_ints : ℕ → ℕ → Option Calc
multiply_ints a b =
    let product = magnitude a * magnitude b in
    let below_zero =
      (is_negative a && not (is_negative b)) || (not (is_negative a) && is_negative b) in
    let result = if below_zero then negate product else product in
    let fits = if below_zero then leb product (2 ^ 31) else ltb product (2 ^ 31) in
    if fits then some (equals result) else none

-- the operator and what it gives
pub calculate : ℕ → ℕ → ℕ → Option Calc
unfolding divide remainder add_ints subtract_ints multiply_ints
calculate op a b =
    if op == b'+'
    then add_ints a b
    else if op == b'-'
    then subtract_ints a b
    else if op == b'*'
    then multiply_ints a b
    else if op == b'/'
    then divide a b
    else if op == b'%'
    then remainder a b
    else some unknown_operator

-- There is no result where a number that is read or the answer is too large for an `int`.
pub cmd_calc : List ℕ → Option Calc
unfolding skip_word calculate
cmd_calc line =
    let expr = skip_blanks line in
    let behind = skip_blanks (skip_word expr) in
    let second = atoi (skip_blanks (after_byte behind)) in
    let answer : Option Calc = elim (atoi expr) [
      | none ↦ none
      | some a ↦ elim second [ none ↦ none | some b ↦ calculate (byte_at behind) a b ]
    ] in
    if is_empty expr then some calc_usage else answer

-- The command `reg` behind its name: the register and the value that are shown, unless all are, and
-- the simulator.
pub cmd_reg : List ℕ → Cpu → Option (List ℕ × ℕ) × Cpu
cmd_reg line c =
    let (name, rest) = word (λ b. b == b' ') 15 (skip_blanks line) in
    let args = skip_blanks rest in
    let val =
      if has_0x args then read_hex (after_byte (after_byte args)) 0 else read_number args 0 in
    if is_empty name
    then (none, c)
    else if is_empty args
    then (some (name, cpu_sim_get_reg name c), c)
    else (some (name, val), cpu_sim_set_reg name val c)

-- A number before a dot, unless it is too large for an `int`, and what stands behind both.
pub octet : List ℕ → ℕ → Option (ℕ × List ℕ)
octet [] n = some (n, [])
octet (c ∷ s) n =
    let next = n * 10 + (c - b'0') in
    let rest = if leb (2 ^ 31) next then none else octet s next in
    if leb b'0' c && leb c b'9' then rest else if c == b'.' then some (n, s) else some (n, c ∷ s)

-- `((uint32_t)a << 24) | ((uint32_t)b << 16) | ((uint32_t)c << 8) | (uint32_t)d`
abbrev pub address_of : ℕ → ℕ → ℕ → ℕ → ℕ
address_of a b c d =
    bit_or (bit_or (bit_or (a * 2 ^ 24 % 2 ^ 32) (b * 2 ^ 16 % 2 ^ 32)) (c * 2 ^ 8 % 2 ^ 32)) d

pub data Ping : Type 0 where
  ping_usage invalid_format : Ping
  ping_to : ℕ → Ping

infixl 5 ◌>>=◌
abbrev ◌>>=◌ {ℓ κ} : {A : Type ℓ} {B : Type κ} → Option A → (A → Option B) → Option B
none >>= f = none
some x >>= f = f x

-- The address that `cmd_ping` reads, or what it prints in its place. There is no result where a
-- number is too large for an `int`.
pub ping_address : List ℕ → Option Ping
unfolding octet
ping_address line =
    let args = skip_blanks line in
    let address : Option Ping = (do
      (a, s1) ← octet args 0
      (b, s2) ← octet s1 0
      (c, s3) ← octet s2 0
      (d, _) ← octet s3 0
      let invalid = (a == 0) && (b == 0) && (c == 0) && (d == 0) && not (byte_at args == b'0')
      some (if invalid then invalid_format else ping_to (address_of a b c d))) in
    if is_empty args then some ping_usage else address
