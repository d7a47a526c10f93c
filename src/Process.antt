-- ===== src/Process.antt =====
-- src/process: the scheduler and inter-process messages.
pub mod Scheduler
pub mod Ipc
