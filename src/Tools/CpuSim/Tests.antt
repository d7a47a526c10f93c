-- ===== src/Tools/CpuSim/Tests.antt =====
-- The simulator on small states.
use dosfs.Prelude.{ℕ, ◌≡◌, ◌∷◌, [], List, refl, some, pos, arith, length-replicate}
use dosfs.Libc.{strcmp}
use dosfs.Tools.CpuSim.{
  Cpu, cpu_sim_reset, cpu_sim_execute, run, word, skip_blanks, skip_commas, perform, parse_operand,
  find_reg, set_operand, update_flags, immediate, read_number,
}
use dosfs.Tools.CpuSim.Stack.{run-pops}

abbrev eax_text : List ℕ
eax_text = b'e' ∷ b'a' ∷ b'x' ∷ []

abbrev ebx_text : List ℕ
ebx_text = b'e' ∷ b'b' ∷ b'x' ∷ []

abbrev seven : Cpu
seven = record cpu_sim_reset { eax = 7; ebx = 9 }

run-pops_example :
    (c' : Cpu) × (run (b'p' ∷ b'u' ∷ b's' ∷ b'h' ∷ []) eax_text [] seven ≡ some (pos 0, c'))
    × (run (b'p' ∷ b'o' ∷ b'p' ∷ []) ebx_text [] c'
        ≡ some (pos 0, record seven { ebx = 7; eip = 2; memory = c'.memory }))
unfolding cpu_sim_reset parse_operand set_operand skip_blanks find_reg strcmp
run-pops_example =
    run-pops eax_text [] ebx_text [] seven (ground arith) (ground arith)
      (length-replicate {A = ℕ} 256 0)

-- "add eax, -2"
added :
    cpu_sim_execute
      (b'a' ∷ b'd' ∷ b'd' ∷ b' ' ∷ b'e' ∷ b'a' ∷ b'x' ∷ b',' ∷ b' ' ∷ b'-' ∷ b'2' ∷ [])
      seven
    ≡ some (pos 0, record seven { eax = 5; eip = 1; eflags = 6 })
unfolding cpu_sim_execute cpu_sim_reset run perform parse_operand set_operand skip_blanks
    skip_commas word find_reg strcmp update_flags immediate read_number
added = refl
