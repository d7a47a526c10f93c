-- ===== src/Tools.antt =====
-- The tools: src/tools.
pub mod Editor
pub mod CpuSim
