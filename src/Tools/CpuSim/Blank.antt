-- ===== src/Tools/CpuSim/Blank.antt =====
-- What `asm` of the shell runs: a line that starts with the blank behind the command's word.
use dosfs.Prelude.{ℕ, ◌+◌, ◌≡◌, refl, some, List, ◌∷◌, negsuc}
use dosfs.Libc.{strcmp}
use dosfs.Tools.CpuSim.{Cpu, u32, word, perform, run, cpu_sim_execute}

-- An instruction behind a blank is none: whatever follows, the simulator returns -1 and has done
-- nothing but count it.
pub cpu_sim_execute_blank :
    (s : List ℕ) (c : Cpu)
    → cpu_sim_execute (b' ' ∷ s) c ≡ some (negsuc 0, record c { eip = u32 (c.eip + 1) })
unfolding cpu_sim_execute run perform word strcmp
cpu_sim_execute_blank s c = refl
