-- ===== src/Shell.antt =====
-- The shell: src/shell/shell.c.
pub mod Line
pub mod Files
pub mod Commands
pub mod Tools
