-- ===== src/Tools/CpuSim/Flags.antt =====
-- The flags after a comparison.
use dosfs.Prelude.{
  ℕ, ◌+◌, ◌-◌, ◌%◌, ◌^◌, ◌<◌, ◌≡◌, ◌∙◌, refl, ap, Bool, true, false, List, [], ◌∷◌, ltb, leb, ◌==◌,
  if◌then◌else◌, some, pos, arith, Bool-cases, inl, inr,
}
use dosfs.Libc.{strcmp}
use dosfs.Tools.CpuSim.{
  Cpu, u32, flag, clear, raise, parity, update_flags, borrow, parse_operand, run, perform,
}

-- Bits 6 and 0 do not depend on the others.
keep_64 :
    (b : Bool) (n : ℕ)
    → (flag 64 (if b then raise 4 n else n) ≡ flag 64 n)
      × (flag 64 (if b then raise 128 n else n) ≡ flag 64 n)
      × (flag 64 (if b then raise 1 n else n) ≡ flag 64 n)
keep_64 true n = (omega arith, omega arith, omega arith)
keep_64 false n = (refl, refl, refl)

keep_1 :
    (b : Bool) (n : ℕ)
    → (flag 1 (if b then raise 4 n else n) ≡ flag 1 n)
      × (flag 1 (if b then raise 128 n else n) ≡ flag 1 n)
      × (flag 1 (if b then raise 64 n else n) ≡ flag 1 n)
keep_1 true n = (omega arith, omega arith, omega arith)
keep_1 false n = (refl, refl, refl)

cleared : (n : ℕ) → (flag 64 (clear 64 n) ≡ 0) × (flag 1 (clear 64 (clear 1 n)) ≡ 0)
cleared n = (omega arith, omega arith)

raised_64 :
    (b : Bool) (n : ℕ)
    → flag 64 (if b then raise 64 (clear 64 n) else clear 64 n) ≡ (if b then 1 else 0)
raised_64 true n = omega arith
raised_64 false n = omega arith

raised_1 :
    (b : Bool) (n : ℕ) → flag 1 n ≡ 0 → flag 1 (if b then raise 1 n else n) ≡ (if b then 1 else 0)
raised_1 true n h = omega (arith, h)
raised_1 false n h = h

-- The zero flag and the carry flag after `update_flags`.
update_flags_lem :
    (r : ℕ) (c : Cpu)
    → (flag 64 (update_flags r c).eflags ≡ (if r == 0 then 1 else 0))
      × (flag 1 (update_flags r c).eflags ≡ 0)
unfolding update_flags
update_flags_lem r c =
    let e = clear 1 (clear 4 (clear 16 (clear 128 (clear 2048 c.eflags)))) in
    let e0 = clear 64 e in
    let z = r == 0 in
    let e1 = if z then raise 64 e0 else e0 in
    let s = leb (2 ^ 31) r in
    let e2 = if s then raise 128 e1 else e1 in
    let p = parity (r % 256) == 0 in
    (
      (keep_64 p e2).0 ∙ (keep_64 s e1).1 ∙ raised_64 z e,
      (keep_1 p e2).0
          ∙ (keep_1 s e1).1
          ∙ (keep_1 z e0).2
          ∙ (cleared (clear 4 (clear 16 (clear 128 (clear 2048 c.eflags))))).1,
    )

borrow-eflags :
    (a b : ℕ) (c : Cpu) → (borrow a b c).eflags ≡ (if ltb a b then raise 1 c.eflags else c.eflags)
unfolding borrow
borrow-eflags a b c = elim (Bool-cases (ltb a b)) [ inl e ↦ rw e refl | inr e ↦ rw e refl ]

difference_zero : (a b : ℕ) → a < 2 ^ 32 → b < 2 ^ 32 → (u32 (a + (2 ^ 32 - b)) == 0) ≡ (a == b)
difference_zero a b h k = elim (Bool-cases (a == b)) [ inl e ↦ ground arith | inr e ↦ ground arith ]

-- The flags after `cmp`.
compare_lem :
    (a b : ℕ) (c : Cpu)
    → a < 2 ^ 32
    → b < 2 ^ 32
    → (flag 64 (borrow a b (update_flags (u32 (a + (2 ^ 32 - b))) c)).eflags
        ≡ (if a == b then 1 else 0))
      × (flag 1 (borrow a b (update_flags (u32 (a + (2 ^ 32 - b))) c)).eflags
          ≡ (if ltb a b then 1 else 0))
compare_lem a b c h k =
    let d = u32 (a + (2 ^ 32 - b)) in
    let (zf, cf) = update_flags_lem d c in
    let same = difference_zero a b h k in
    rw (borrow-eflags a b (update_flags d c)) (
      (keep_64 (ltb a b) (update_flags d c).eflags).2 ∙ zf ∙ rw same refl,
      raised_1 (ltb a b) (update_flags d c).eflags cf,
    )

borrow_only :
    (a b r : ℕ) (c : Cpu)
    → borrow a b (update_flags r c) ≡ record c { eflags = (borrow a b (update_flags r c)).eflags }
unfolding borrow update_flags
borrow_only a b r c = elim (Bool-cases (ltb a b)) [ inl e ↦ rw e refl | inr e ↦ rw e refl ]

abbrev cmp_text : List ℕ
cmp_text = b'c' ∷ b'm' ∷ b'p' ∷ []

-- `cmp` of two 32-bit operands returns 0, sets the zero flag exactly when they are equal and the carry flag exactly when the first is below the second, and changes nothing but the flags and the instruction pointer.
pub run-compares :
    (o1 o2 : List ℕ) (c : Cpu)
    → (parse_operand o1 c).1 < 2 ^ 32
    → (parse_operand o2 c).1 < 2 ^ 32
    → (f : ℕ) × (run cmp_text o1 o2 c
        ≡ some (pos 0, record c { eip = u32 (c.eip + 1); eflags = f }))
      × (flag 64 f ≡ (if (parse_operand o1 c).1 == (parse_operand o2 c).1 then 1 else 0))
      × (flag 1 f ≡ (if ltb (parse_operand o1 c).1 (parse_operand o2 c).1 then 1 else 0))
unfolding run perform strcmp update_flags
run-compares o1 o2 c h k =
    let a = (parse_operand o1 c).1 in
    let b = (parse_operand o2 c).1 in
    let c1 = record c { eip = u32 (c.eip + 1) } in
    let (zf, cf) = compare_lem a b c1 h k in
    (
      (borrow a b (update_flags (u32 (a + (2 ^ 32 - b))) c1)).eflags,
      ap (λ x. some (pos 0, x)) (borrow_only a b (u32 (a + (2 ^ 32 - b))) c1),
      zf,
      cf,
    )
