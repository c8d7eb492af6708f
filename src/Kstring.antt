-- ===== src/Kstring.antt =====
-- lib/libk/src/kstring/: memory and string functions, over a memory of bytes by address. An object
-- does not wrap around the end of the address space. NULL is `none`.
pub mod Memory
pub mod Text
pub mod Search
mod Tests
