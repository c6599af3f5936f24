-- ===== src/Memory.antt =====
-- kernel/src/memory_management: the memory layout and the allocators of pages and address space.
pub mod Layout
pub mod VirtualSpace
pub mod PageAllocator
pub mod PageTables
