-- ===== src/Kmalloc.antt =====
-- lib/libk/src/kstdlib/malloc_free/: the allocator of the kernel heap. Free chunks of less than 256
-- bytes stand in small bins (circular lists), larger ones in tree bins; the designated victim and
-- the top chunk stand in neither.
pub mod Chunk
pub mod Dllist
pub mod Tree
pub mod Bins
pub mod Top
pub mod Merge
pub mod Api
pub mod Layout
mod Tests
