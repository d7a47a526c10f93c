-- ===== src/Memory.antt =====
-- src/memory: physical pages, page tables and the kernel heap.
pub mod Pages
pub mod Heap
pub mod Pmm
pub mod Vmm
