-- ===== src/Mm.antt =====
-- src/mm: page frames, the kernel's page table and the kernel heap.
pub mod Frame
pub mod Paging
pub mod Heap
pub mod Boot
