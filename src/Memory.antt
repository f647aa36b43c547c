-- ===== src/Memory.antt =====
-- Kernel memory management: ayumos/kernel/memory.
pub mod Heap
pub mod Extents
pub mod Slab
