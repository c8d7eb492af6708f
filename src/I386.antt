-- ===== src/I386.antt =====
-- system/kernel/i386/: the code for the processor, its interrupt controllers and the text display.
pub mod Descriptors
pub mod Pic
pub mod Display
pub mod Interrupts
mod Tests
