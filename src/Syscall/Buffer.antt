-- ===== src/Syscall/Buffer.antt =====
-- What the calls accept as a buffer, and that a read stays inside it.
use dosfs.Prelude.{
  ℕ, ◌+◌, ◌-◌, ◌^◌, ◌≤◌, ◌<◌, ◌≡◌, ◌≢◌, ◌⊎◌, ◌↔◌, refl, inl, inr, true, false, Option, some, List,
  [], ◌∷◌, ◌++◌, arith, ltb, ◌==◌, Bool-cases,
}
use dosfs.Syscall.{validate_user_pointer, Bytes, store, read_from, sys_read}

-- A buffer is accepted exactly when it does not start at 0 and ends below the end of user space, for
-- 32-bit addresses and lengths.
pub validate_user_pointer_iff :
    (ptr len : ℕ)
    → ptr < 2 ^ 32
    → len < 2 ^ 32
    → (validate_user_pointer ptr len ≡ true) ↔ ((ptr ≢ 0) × (ptr + len < 2 ^ 31))
unfolding validate_user_pointer
validate_user_pointer_iff ptr len h k = ground arith

-- Memory outside the `n` bytes from `buf` on is as it was.
pub SameOutside : ℕ → ℕ → Bytes → Bytes → Type 0
SameOutside buf n m m' = (a : ℕ) → (a < buf) ⊎ (buf + n ≤ a) → m' a ≡ m a

store-SameOutside :
    (buf n i v : ℕ) (m m' : Bytes)
    → i < n
    → SameOutside buf n (store m (buf + i) v) m'
    → SameOutside buf n m m'
unfolding SameOutside
store-SameOutside buf n i v m m' lt same a out = elim (Bool-cases (a == buf + i)) [
  | inl e ↦ elim out [ inl low ↦ absurd (ground arith) | inr high ↦ absurd (ground arith) ]
  | inr e ↦ let s = same a out in ground (arith, s)
]

stored :
    (buf n i v : ℕ) (m m' : Bytes)
    → i < n
    → SameOutside buf n m m'
    → SameOutside buf n m (store m' (buf + i) v)
unfolding SameOutside
stored buf n i v m m' lt same a out = elim (Bool-cases (a == buf + i)) [
  | inl e ↦ elim out [ inl low ↦ absurd (ground arith) | inr high ↦ absurd (ground arith) ]
  | inr e ↦ let s = same a out in ground (arith, s)
]

-- What a read of a typed line leaves behind: an index inside the buffer, and memory that is the same
-- outside of it.
pub record Inside (buf n : ℕ) (m : Bytes) (o : Option (ℕ × Bytes)) : Type 0 where
  pub last : ℕ
  pub memory : Bytes
  pub returned : o ≡ some (last, memory)
  pub in_buffer : last < n
  pub same : SameOutside buf n m memory

here-Inside : (buf n i : ℕ) (m : Bytes) → i < n → Inside buf n m (some (i, m))
unfolding SameOutside
here-Inside buf n i m lt = record {
  last = i;
  memory = m;
  returned = refl;
  in_buffer = lt;
  same = λ a out. refl;
}

-- With a newline among what is typed, the loop ends inside the buffer.
read_from-Inside :
    (before after : List ℕ) (buf max_len i : ℕ) (m : Bytes)
    → i < max_len
    → Inside buf max_len m (read_from (before ++ 10 ∷ after) buf max_len i m)
unfolding read_from
read_from-Inside [] after buf max_len i m lt = elim (Bool-cases (ltb i (max_len - 1))) [
  | inl e ↦ rw (read_from, e) (here-Inside buf max_len i m lt)
  | inr e ↦ rw (read_from, e) (here-Inside buf max_len i m lt)
]
read_from-Inside (c ∷ before) after buf max_len i m lt =
    let erased = read_from-Inside before after buf max_len (i - 1) m (omega arith) in
    elim (Bool-cases (ltb i (max_len - 1))) [
      | inr e ↦ rw (read_from, e) (here-Inside buf max_len i m lt)
      | inl e ↦ elim (Bool-cases (c == 10)) [
        | inl nl ↦ rw (read_from, e, nl) (here-Inside buf max_len i m lt)
        | inr other ↦ elim (Bool-cases (c == 8)) [
          | inl bs ↦ rw (read_from, e, other, bs) erased
          | inr plain ↦
              let m1 : Bytes = store m (buf + i) c in
              let next = read_from-Inside before after buf max_len (i + 1) m1 (ground arith) in
              let inside : Inside buf max_len m
                  (read_from (before ++ 10 ∷ after) buf max_len (i + 1) m1) =
                record {
                  last = next.last;
                  memory = next.memory;
                  returned = next.returned;
                  in_buffer = next.in_buffer;
                  same = store-SameOutside buf max_len i c m next.memory lt next.same;
                } in
              rw (read_from, e, other, plain) inside
        ]
      ]
    ]

-- With an accepted buffer of at least one byte, and a newline among what is typed, `sys_read` returns
-- an index inside the buffer, where it has put a NUL, and memory outside the buffer is as it was.
pub sys_read-Inside :
    (before after : List ℕ) (buf max_len : ℕ) (m : Bytes)
    → validate_user_pointer buf max_len ≡ true
    → 0 < max_len
    → (n : ℕ) × (m' : Bytes) × (sys_read (before ++ 10 ∷ after) buf max_len m ≡ some (n, m'))
      × (n < max_len)
      × (m' (buf + n) ≡ 0)
      × SameOutside buf max_len m m'
unfolding sys_read
sys_read-Inside before after buf max_len m ok pos_len =
    let r = read_from-Inside before after buf max_len 0 m pos_len in
    let m' : Bytes = store r.memory (buf + r.last) 0 in
    let nonempty : (max_len == 0) ≡ false = ground arith in
    (
      r.last,
      m',
      rw (sys_read, ok, nonempty, r.returned) refl,
      r.in_buffer,
      ground arith,
      stored buf max_len r.last 0 m r.memory r.in_buffer r.same,
    )
