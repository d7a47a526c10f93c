-- ===== src/Memory/Vmm/Tests.antt =====
-- A mapping on a small machine.
use dosfs.Prelude.{ℕ, ◌+◌, ◌≡◌, arith}
use dosfs.Memory.Vmm.{Vmm, get_page_table, vmm_map_page, vmm_unmap_page, vmm_get_physical}
use dosfs.Memory.Vmm.Translate.{vmm_get_physical-map}

-- the next free page
abbrev next_page : ℕ → ℕ × ℕ
next_page f = (f, f + 4096)

abbrev keep : ℕ → ℕ → ℕ
keep page f = f

abbrev machine : Vmm ℕ
machine = record {
  words = λ a. 0;
  frames = 8192;
  current_directory = 4096;
  kernel_directory = 4096;
}

vmm_get_physical-map_example :
    (vmm_get_physical next_page keep 0x400123
        (vmm_map_page next_page keep 0x400123 0x9000 6 machine)
      ≡ 0x9123)
    × (vmm_get_physical next_page keep 0x400123 (
          vmm_unmap_page next_page keep 0x400123
            (vmm_map_page next_page keep 0x400123 0x9000 6 machine))
        ≡ 0)
unfolding get_page_table
vmm_get_physical-map_example =
    vmm_get_physical-map next_page keep 0x400123 0x9000 6 machine (ground arith) (ground arith)
      (ground arith) (ground arith) (ground arith)
