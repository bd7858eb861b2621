-- ===== src/Threads.antt =====
-- The programs whose threads share memory, as interleavings of their steps.
pub mod Locks
pub mod Counter
pub mod Buffer
pub mod Deadlock
pub mod Gate
pub mod LostUpdate
pub mod Printers
pub mod Race
pub mod Turns
mod Tests
