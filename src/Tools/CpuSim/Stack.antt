-- ===== src/Tools/CpuSim/Stack.antt =====
-- What is pushed is popped.
use dosfs.Prelude.{
  ℕ, ◌+◌, ◌-◌, ◌*◌, ◌/◌, ◌%◌, ◌^◌, ◌<◌, ◌≡◌, ◌≢◌, ◌∙◌, refl, ap, List, [], ◌∷◌, some, pos, arith,
  get_or, set, length, length-set, get_or-set_self, get_or-set_ne,
}
use dosfs.Libc.{strcmp}
use dosfs.Tools.CpuSim.{Cpu, u32, cell, push, top, pop, set_operand, parse_operand, run, perform}

-- A 32-bit number from its bytes.
bytes_of :
    (v : ℕ)
    → v < 2 ^ 32
    → v % 256
        + 2 ^ 8 * (v / 2 ^ 8 % 256)
        + 2 ^ 16 * (v / 2 ^ 16 % 256)
        + 2 ^ 24 * (v / 2 ^ 24 % 256)
      ≡ v
bytes_of v h = omega (arith, h)

apart :
    (s : ℕ)
    → s < 2 ^ 32
    → (cell s 0 ≢ cell s 1)
      × (cell s 0 ≢ cell s 2)
      × (cell s 0 ≢ cell s 3)
      × (cell s 1 ≢ cell s 2)
      × (cell s 1 ≢ cell s 3)
      × (cell s 2 ≢ cell s 3)
apart s h = (omega arith, omega arith, omega arith, omega arith, omega arith, omega arith)

small : (s i : ℕ) → cell s i < 256
small s i = omega arith

-- Four bytes at four places.
get_four :
    (m : List ℕ) (i j k l a b c d : ℕ)
    → length m ≡ 256
    → (i < 256) × (j < 256) × (k < 256) × (l < 256)
    → (i ≢ j) × (i ≢ k) × (i ≢ l) × (j ≢ k) × (j ≢ l) × (k ≢ l)
    → (get_or (set (set (set (set m i a) j b) k c) l d) i 0 ≡ a)
      × (get_or (set (set (set (set m i a) j b) k c) l d) j 0 ≡ b)
      × (get_or (set (set (set (set m i a) j b) k c) l d) k 0 ≡ c)
      × (get_or (set (set (set (set m i a) j b) k c) l d) l 0 ≡ d)
get_four m i j k l a b c d n (hi, hj, hk, hl) (ij, ik, il, jk, jl, kl) =
    let m1 = set m i a in
    let m2 = set m1 j b in
    let m3 = set m2 k c in
    let n1 : length m1 ≡ 256 = length-set m i a ∙ n in
    let n2 : length m2 ≡ 256 = length-set m1 j b ∙ n1 in
    let n3 : length m3 ≡ 256 = length-set m2 k c ∙ n2 in
    (
      get_or-set_ne m3 l i d 0 (omega (arith, il))
          ∙ get_or-set_ne m2 k i c 0 (omega (arith, ik))
          ∙ get_or-set_ne m1 j i b 0 (omega (arith, ij))
          ∙ get_or-set_self m i a 0 (omega (arith, n, hi)),
      get_or-set_ne m3 l j d 0 (omega (arith, jl))
          ∙ get_or-set_ne m2 k j c 0 (omega (arith, jk))
          ∙ get_or-set_self m1 j b 0 (omega (arith, n1, hj)),
      get_or-set_ne m3 l k d 0 (omega (arith, kl))
          ∙ get_or-set_self m2 k c 0 (omega (arith, n2, hk)),
      get_or-set_self m3 l d 0 (omega (arith, n3, hl)),
    )

top-push : (v : ℕ) (c : Cpu) → v < 2 ^ 32 → length c.memory ≡ 256 → top (push v c) ≡ v
unfolding push
top-push v c h n =
    let s = u32 (c.esp + (2 ^ 32 - 4)) in
    let (ea, eb, ec, ed) =
      get_four c.memory (cell s 0) (cell s 1) (cell s 2) (cell s 3) (v % 256) (v / 2 ^ 8 % 256)
        (v / 2 ^ 16 % 256) (v / 2 ^ 24 % 256) n (small s 0, small s 1, small s 2, small s 3)
        (apart s (omega arith)) in
    rw (ea, eb, ec, ed) (bytes_of v h)

pop-push :
    (o : List ℕ) (v e : ℕ) (c : Cpu)
    → v < 2 ^ 32
    → c.esp < 2 ^ 32
    → length c.memory ≡ 256
    → pop o (record (push v c) { eip = e })
      ≡ set_operand o v (record c { eip = e; memory = (push v c).memory })
unfolding pop push
pop-push o v e c h s n =
    let back : u32 (u32 (c.esp + (2 ^ 32 - 4)) + 4) ≡ c.esp = omega (arith, s) in
    let m = (push v c).memory in
    ap (λ t. set_operand o t (record c { esp = u32 ((push v c).esp + 4); eip = e; memory = m }))
      (top-push v c h n)
    ∙ ap (λ t. set_operand o v (record c { esp = t; eip = e; memory = m })) back

abbrev push_text : List ℕ
push_text = b'p' ∷ b'u' ∷ b's' ∷ b'h' ∷ []

abbrev pop_text : List ℕ
pop_text = b'p' ∷ b'o' ∷ b'p' ∷ []

-- With 256 bytes of memory, `push` of a 32-bit operand and then `pop` puts the operand's value into the destination of `pop`, and both leave the registers, but for the instruction pointer, and the flags as they were before.
pub run-pops :
    (o1 o2 o3 o4 : List ℕ) (c : Cpu)
    → (parse_operand o1 c).1 < 2 ^ 32
    → c.esp < 2 ^ 32
    → length c.memory ≡ 256
    → (c' : Cpu) × (run push_text o1 o2 c ≡ some (pos 0, c'))
      × (run pop_text o3 o4 c'
          ≡ some (
            pos 0,
            set_operand o3
                (parse_operand o1 c).1
                (record c { eip = u32 (u32 (c.eip + 1) + 1); memory = c'.memory }),
          ))
unfolding run perform strcmp push pop
run-pops o1 o2 o3 o4 c h s n =
    let a = (parse_operand o1 c).1 in
    let c1 = record c { eip = u32 (c.eip + 1) } in
    (
      push a c1,
      refl,
      ap (λ x. some (pos 0, x)) (pop-push o3 a (u32 (u32 (c.eip + 1) + 1)) c1 h s n),
    )
