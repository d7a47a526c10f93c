-- ===== src/Syscall.antt =====
-- src/syscall/syscall.c: the check of user pointers, and the calls that read and write text.
-- Numbers are 32-bit patterns. User memory is a function from addresses to bytes. The keyboard is the
-- list of the characters that are typed; when it is empty `keyboard_getchar` waits for ever, and the
-- call has no result. The characters that `vga_putchar` shows are listed.
mod Buffer
mod Tests
mod Handler
use dosfs.Prelude.{
  ℕ, zero, suc, ◌+◌, ◌-◌, ◌%◌, ◌^◌, Bool, true, false, not, ◌&&◌, ◌||◌, Option, none, some, List,
  [], ◌∷◌, ltb, leb, ◌==◌, if◌then◌else◌,
}

abbrev pub user_space_end : ℕ
user_space_end = 0x80000000

abbrev pub u32 : ℕ → ℕ
u32 n = n % 2 ^ 32

pub validate_user_pointer : ℕ → ℕ → Bool
validate_user_pointer ptr len =
    if (ptr == 0) || leb user_space_end ptr
    then false
    else if ltb 0 len && (ltb (u32 (ptr + len)) ptr || leb user_space_end (u32 (ptr + len)))
    then false
    else true

abbrev pub Bytes : Type 0
Bytes = ℕ → ℕ

abbrev pub store : Bytes → ℕ → ℕ → Bytes
store m a v b = if b == a then v else m b

-- The result register and the characters shown.
pub sys_write : ℕ → ℕ → Bytes → ℕ × List ℕ
unfolding validate_user_pointer
sys_write buf len m =
    if validate_user_pointer buf len then (len, show len buf) else (0xFFFFFFFF, [])
  where
    show : ℕ → ℕ → List ℕ
    show zero a = []
    show (suc n) a = m a ∷ show n (a + 1)

-- The loop of `sys_read` from index `i` on: where it ends, and the memory.
pub read_from : List ℕ → ℕ → ℕ → ℕ → Bytes → Option (ℕ × Bytes)
read_from [] buf max_len i m = if ltb i (max_len - 1) then none else some (i, m)
read_from (c ∷ typed) buf max_len i m =
    let erased = read_from typed buf max_len (i - 1) m in
    let stored = read_from typed buf max_len (i + 1) (store m (buf + i) c) in
    if not (ltb i (max_len - 1))
    then some (i, m)
    else if c == 10
    then some (i, m)
    else if c == 8
    then erased
    else stored

-- The result register and the memory; `none` while the call waits for a character.
pub sys_read : List ℕ → ℕ → ℕ → Bytes → Option (ℕ × Bytes)
unfolding validate_user_pointer read_from
sys_read typed buf max_len m =
    if not (validate_user_pointer buf max_len)
    then some (0xFFFFFFFF, m)
    else if max_len == 0
    then some (0, m)
    else elim (read_from typed buf max_len 0 m) [
      | none ↦ none
      | some (i, m') ↦ some (i, store m' (buf + i) 0)
    ]
