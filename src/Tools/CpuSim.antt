-- ===== src/Tools/CpuSim.antt =====
-- src/tools/cpu_sim.c: a simulator of some instructions, written as text.
-- A text is its bytes without the NUL. A mask over whole bits or bytes is arithmetic on them: `flag`,
-- `clear` and `raise` read, clear and set the bit of a weight. Printing is left out.
mod Flags
mod Stack
pub mod Words
pub mod Blank
mod Tests
use Prim.Native.Nat.{bit_and, bit_or, bit_xor}
use dosfs.Prelude.{
  ℕ, zero, suc, ◌+◌, ◌-◌, ◌*◌, ◌/◌, ◌%◌, ◌^◌, Bool, true, false, not, ◌&&◌, ◌||◌, Option, none,
  some, List, [], ◌∷◌, ltb, leb, ◌==◌, if◌then◌else◌, get_or, set, replicate, ℤ, pos, negsuc,
  is_zero,
}
use dosfs.Libc.{strcmp, byte_at, after_byte}

pub record Cpu : Type 0 where
  pub eax : ℕ
  pub ebx : ℕ
  pub ecx : ℕ
  pub edx : ℕ
  pub esi : ℕ
  pub edi : ℕ
  pub ebp : ℕ
  pub esp : ℕ
  pub eip : ℕ
  pub eflags : ℕ
  pub memory : List ℕ

pub cpu_sim_reset : Cpu
cpu_sim_reset = record {
  eax = 0;
  ebx = 0;
  ecx = 0;
  edx = 0;
  esi = 0;
  edi = 0;
  ebp = 0;
  esp = 0xFF;
  eip = 0;
  eflags = 2;
  memory = replicate 256 0;
}

abbrev pub u32 : ℕ → ℕ
u32 n = n % 2 ^ 32

-- what `find_reg` points to
pub data Reg : Type 0 where
  r_eax : Reg
  r_ebx : Reg
  r_ecx : Reg
  r_edx : Reg
  r_esi : Reg
  r_edi : Reg
  r_ebp : Reg
  r_esp : Reg
  r_eip : Reg

abbrev pub is : List ℕ → List ℕ → Bool
is s name = is_zero (strcmp s name)

pub find_reg : List ℕ → Option Reg
find_reg s =
    if is s (b'e' ∷ b'a' ∷ b'x' ∷ [])
    then some r_eax
    else if is s (b'e' ∷ b'b' ∷ b'x' ∷ [])
    then some r_ebx
    else if is s (b'e' ∷ b'c' ∷ b'x' ∷ [])
    then some r_ecx
    else if is s (b'e' ∷ b'd' ∷ b'x' ∷ [])
    then some r_edx
    else if is s (b'e' ∷ b's' ∷ b'i' ∷ [])
    then some r_esi
    else if is s (b'e' ∷ b'd' ∷ b'i' ∷ [])
    then some r_edi
    else if is s (b'e' ∷ b'b' ∷ b'p' ∷ [])
    then some r_ebp
    else if is s (b'e' ∷ b's' ∷ b'p' ∷ [])
    then some r_esp
    else if is s (b'e' ∷ b'i' ∷ b'p' ∷ [])
    then some r_eip
    else none

abbrev pub reg : Reg → Cpu → ℕ
reg r_eax c = c.eax
reg r_ebx c = c.ebx
reg r_ecx c = c.ecx
reg r_edx c = c.edx
reg r_esi c = c.esi
reg r_edi c = c.edi
reg r_ebp c = c.ebp
reg r_esp c = c.esp
reg r_eip c = c.eip

abbrev pub put_reg : Reg → ℕ → Cpu → Cpu
put_reg r_eax v c = record c { eax = v }
put_reg r_ebx v c = record c { ebx = v }
put_reg r_ecx v c = record c { ecx = v }
put_reg r_edx v c = record c { edx = v }
put_reg r_esi v c = record c { esi = v }
put_reg r_edi v c = record c { edi = v }
put_reg r_ebp v c = record c { ebp = v }
put_reg r_esp v c = record c { esp = v }
put_reg r_eip v c = record c { eip = v }

-- `strcmp(name, "eflags") == 0 || strcmp(name, "flags") == 0`
abbrev pub is_flags : List ℕ → Bool
is_flags s =
    is s (b'e' ∷ b'f' ∷ b'l' ∷ b'a' ∷ b'g' ∷ b's' ∷ [])
    || is s (b'f' ∷ b'l' ∷ b'a' ∷ b'g' ∷ b's' ∷ [])

pub cpu_sim_get_reg : List ℕ → Cpu → ℕ
unfolding find_reg
cpu_sim_get_reg name c = elim (find_reg name) [
  | some r ↦ reg r c
  | none ↦ if is_flags name then c.eflags else 0
]

pub cpu_sim_set_reg : List ℕ → ℕ → Cpu → Cpu
unfolding find_reg
cpu_sim_set_reg name value c = elim (find_reg name) [
  | some r ↦ put_reg r value c
  | none ↦ if is_flags name then record c { eflags = value } else c
]

abbrev pub flag : ℕ → ℕ → ℕ
flag w n = n / w % 2

abbrev pub clear : ℕ → ℕ → ℕ
clear w n = n - n / w % 2 * w

abbrev pub raise : ℕ → ℕ → ℕ
raise w n = n - n / w % 2 * w + w

-- the lowest bit of `p` after the three exclusive ors
abbrev pub parity : ℕ → ℕ
parity p0 = let p1 = bit_xor p0 (p0 / 16) in let p2 = bit_xor p1 (p1 / 4) in bit_xor p2 (p2 / 2) % 2

pub update_flags : ℕ → Cpu → Cpu
update_flags result c =
    let e0 = clear 64 (clear 1 (clear 4 (clear 16 (clear 128 (clear 2048 c.eflags))))) in
    let e1 = if result == 0 then raise 64 e0 else e0 in
    let e2 = if leb (2 ^ 31) result then raise 128 e1 else e1 in
    let e3 = if parity (result % 256) == 0 then raise 4 e2 else e2 in record c { eflags = e3 }

-- `cpu.eflags |= 1` where `a < b`
pub borrow : ℕ → ℕ → Cpu → Cpu
borrow a b c = if ltb a b then record c { eflags = raise 1 c.eflags } else c

pub skip_blanks : List ℕ → List ℕ
skip_blanks [] = []
skip_blanks (c ∷ s) = let rest = skip_blanks s in if c == b' ' then rest else c ∷ s

abbrev pub is_digit : ℕ → Bool
is_digit c = leb b'0' c && leb c b'9'

-- one round of the loops over hexadecimal digits
abbrev pub add_hex : ℕ → ℕ → ℕ
add_hex acc c =
    let n = u32 (acc * 16) in
    if is_digit c
    then u32 (n + (c - b'0'))
    else if leb b'a' c && leb c b'f'
    then u32 (n + (c - b'a' + 10))
    else if leb b'A' c && leb c b'F'
    then u32 (n + (c - b'A' + 10))
    else n

pub read_hex : List ℕ → ℕ → ℕ
read_hex [] acc = acc
read_hex (c ∷ s) acc = read_hex s (add_hex acc c)

-- the loop for a decimal address: what is no digit is passed over
pub read_address : List ℕ → ℕ → ℕ
read_address [] acc = acc
read_address (c ∷ s) acc =
    read_address s (if is_digit c then u32 (u32 (acc * 10) + (c - b'0')) else acc)

-- the loop for a decimal number: it ends at what is no digit
pub read_number : List ℕ → ℕ → ℕ
read_number [] acc = acc
read_number (c ∷ s) acc =
    let rest = read_number s (u32 (acc * 10 + (c - b'0'))) in if is_digit c then rest else acc

pub until_bracket : List ℕ → List ℕ
until_bracket [] = []
until_bracket (c ∷ s) = let rest = until_bracket s in if c == b']' then [] else c ∷ rest

abbrev pub has_0x : List ℕ → Bool
has_0x s = (byte_at s == b'0') && (byte_at (after_byte s) == b'x')

pub immediate : List ℕ → ℕ
unfolding read_hex read_number
immediate s =
    if has_0x s
    then read_hex (after_byte (after_byte s)) 0
    else if byte_at s == b'-'
    then u32 (2 ^ 32 - read_number (after_byte s) 0)
    else read_number s 0

pub address : List ℕ → ℕ
unfolding read_hex read_address until_bracket
address s =
    if has_0x s
    then read_hex (until_bracket (after_byte (after_byte s))) 0
    else read_address (until_bracket s) 0

-- The number returned and `*out`.
pub parse_operand : List ℕ → Cpu → ℕ × ℕ
unfolding skip_blanks address immediate find_reg
parse_operand s0 c =
    let s = skip_blanks s0 in
    if byte_at s == b'['
    then (2, address (after_byte s))
    else elim (find_reg s) [ some r ↦ (1, reg r c) | none ↦ (0, immediate s) ]

pub set_operand : List ℕ → ℕ → Cpu → Cpu
unfolding skip_blanks find_reg
set_operand s0 val c =
    let s = skip_blanks s0 in
    if byte_at s == b'[' then c else elim (find_reg s) [ some r ↦ put_reg r val c | none ↦ c ]

-- `update_flags(result); set_operand(operand1, result);`
abbrev pub store : List ℕ → ℕ → Cpu → Cpu
store o1 result c = set_operand o1 result (update_flags result c)

-- the place in `memory` of the byte at `esp + i`
abbrev pub cell : ℕ → ℕ → ℕ
cell sp i = u32 (sp + i) % 256

pub push : ℕ → Cpu → Cpu
push v c =
    let sp = u32 (c.esp + (2 ^ 32 - 4)) in
    record c {
      esp = sp;
      memory =
          set
            (set (set (set c.memory (cell sp 0) (v % 256)) (cell sp 1) (v / 2 ^ 8 % 256))
              (cell sp 2) (v / 2 ^ 16 % 256))
            (cell sp 3) (v / 2 ^ 24 % 256);
    }

abbrev pub top : Cpu → ℕ
top c =
    get_or c.memory (cell c.esp 0) 0
    + 2 ^ 8 * get_or c.memory (cell c.esp 1) 0
    + 2 ^ 16 * get_or c.memory (cell c.esp 2) 0
    + 2 ^ 24 * get_or c.memory (cell c.esp 3) 0

pub pop : List ℕ → Cpu → Cpu
pop o1 c = set_operand o1 (top c) (record c { esp = u32 (c.esp + 4) })

-- The instruction `op` on the operands `o1` and `o2`, with the values `a` and `b`: what is returned and
-- the state. There is no result where C gives a shift none.
pub perform : List ℕ → List ℕ → ℕ → ℕ → Cpu → Option (ℤ × Cpu)
perform op o1 a b c =
    let difference = u32 (a + (2 ^ 32 - b)) in
    if is op (b'm' ∷ b'o' ∷ b'v' ∷ [])
    then some (pos 0, set_operand o1 b c)
    else if is op (b'a' ∷ b'd' ∷ b'd' ∷ [])
    then some (pos 0, store o1 (u32 (a + b)) c)
    else if is op (b's' ∷ b'u' ∷ b'b' ∷ [])
    then some (pos 0, set_operand o1 difference (borrow a b (update_flags difference c)))
    else if is op (b'm' ∷ b'u' ∷ b'l' ∷ [])
    then some (pos 0, record c { eax = u32 (a * b); edx = a * b / 2 ^ 32 })
    else if is op (b'd' ∷ b'i' ∷ b'v' ∷ [])
    then (if b == 0
        then some (negsuc 0, c)
        else some (pos 0, record c { eax = a / b; edx = a % b }))
    else if is op (b'a' ∷ b'n' ∷ b'd' ∷ [])
    then some (pos 0, store o1 (bit_and a b) c)
    else if is op (b'o' ∷ b'r' ∷ [])
    then some (pos 0, store o1 (bit_or a b) c)
    else if is op (b'x' ∷ b'o' ∷ b'r' ∷ [])
    then some (pos 0, store o1 (bit_xor a b) c)
    else if is op (b'n' ∷ b'o' ∷ b't' ∷ [])
    then some (pos 0, set_operand o1 (2 ^ 32 - 1 - a) c)
    else if is op (b's' ∷ b'h' ∷ b'l' ∷ [])
    then (if leb 32 b then none else some (pos 0, store o1 (u32 (a * 2 ^ b)) c))
    else if is op (b's' ∷ b'h' ∷ b'r' ∷ [])
    then (if leb 32 b then none else some (pos 0, store o1 (a / 2 ^ b) c))
    else if is op (b'i' ∷ b'n' ∷ b'c' ∷ [])
    then some (pos 0, store o1 (u32 (a + 1)) c)
    else if is op (b'd' ∷ b'e' ∷ b'c' ∷ [])
    then some (pos 0, store o1 (u32 (a + (2 ^ 32 - 1))) c)
    else if is op (b'c' ∷ b'm' ∷ b'p' ∷ [])
    then some (pos 0, borrow a b (update_flags difference c))
    else if is op (b't' ∷ b'e' ∷ b's' ∷ b't' ∷ [])
    then some (pos 0, update_flags (bit_and a b) c)
    else if is op (b'p' ∷ b'u' ∷ b's' ∷ b'h' ∷ [])
    then some (pos 0, push a c)
    else if is op (b'p' ∷ b'o' ∷ b'p' ∷ [])
    then some (pos 0, pop o1 c)
    else if is op (b'n' ∷ b'o' ∷ b'p' ∷ [])
    then some (pos 0, c)
    else some (negsuc 0, c)

-- `cpu_sim_execute` from its parsed parts on.
pub run : List ℕ → List ℕ → List ℕ → Cpu → Option (ℤ × Cpu)
run op o1 o2 c =
    perform op o1 (parse_operand o1 c).1 (parse_operand o2 c).1 (record c { eip = u32 (c.eip + 1) })

-- At most `n` bytes up to one that ends the word, and the rest.
unfoldable pub word : (ℕ → Bool) → ℕ → List ℕ → List ℕ × List ℕ
word stop n [] = ([], [])
word stop zero (c ∷ s) = ([], c ∷ s)
word stop (suc n) (c ∷ s) =
    let (w, rest) = word stop n s in if stop c then ([], c ∷ s) else (c ∷ w, rest)

pub skip_commas : List ℕ → List ℕ
skip_commas [] = []
skip_commas (c ∷ s) = let rest = skip_commas s in if (c == b' ') || (c == b',') then rest else c ∷ s

pub cpu_sim_execute : List ℕ → Cpu → Option (ℤ × Cpu)
unfolding run word skip_blanks skip_commas
cpu_sim_execute instruction c =
    let (op, s1) = word (λ b. b == b' ') 15 instruction in
    let (operand1, s2) = word (λ b. (b == b',') || (b == b' ')) 31 (skip_blanks s1) in
    let (operand2, s3) = word (λ b. false) 31 (skip_commas s2) in run op operand1 operand2 c
