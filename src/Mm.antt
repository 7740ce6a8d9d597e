-- ===== src/Mm.antt =====
-- mm/: the physical and the virtual memory manager.
pub mod Memory
pub mod Entry
pub mod Paging
pub mod Initialize
