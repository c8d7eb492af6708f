-- ===== src/Kernel.antt =====
-- The kernel proper: system/kernel/task.c, message.c, clock.c and the call dispatch of main.c, over
-- one table of tasks that they share.
pub mod State
pub mod Ready
pub mod Tasks
pub mod Message
pub mod Clock
pub mod Calls
mod Tests
