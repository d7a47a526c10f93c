-- ===== src/Fs.antt =====
-- The file systems: src/fs.
pub mod Tmpfs
pub mod Disk
pub mod Fat16
