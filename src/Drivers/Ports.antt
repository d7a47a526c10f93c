-- ===== src/Drivers/Ports.antt =====
-- The ports of src/include/io.h, which one assembly instruction each reads or writes: what is behind
-- them is a machine with some state.
use dosfs.Prelude.{ℕ}

pub record Ports : Type 1 where
  pub Machine : Type 0
  -- the port and the byte
  pub outb : ℕ → ℕ → Machine → Machine
  pub inb : ℕ → Machine → ℕ × Machine
  -- the same for 32 bits
  pub outl : ℕ → ℕ → Machine → Machine
  pub inl : ℕ → Machine → ℕ × Machine

-- `io_wait`
abbrev pub io_wait : (P : Ports) → P.Machine → P.Machine
io_wait P m = P.outb 0x80 0 m
