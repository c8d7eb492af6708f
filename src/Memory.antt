-- ===== src/Memory.antt =====
-- system/kernel/memory.c: page tables, the stack of free frames, pages on demand, the kernel heap.
pub mod Paging
pub mod FrameStack
pub mod Pages
pub mod Start
pub mod HeapGrowth
mod Tests
