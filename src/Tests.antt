-- ===== src/Tests.antt =====
-- The theorems at concrete inputs.
mod Mm
mod Heap
mod Buffer
mod Drivers
mod Kernel
mod Files
mod Ext2
mod Lookup
mod Write
mod Mount
mod Tasks
