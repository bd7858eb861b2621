-- ===== src/Kernel.antt =====
-- What the drivers use of the kernel: user memory and the registration of character devices.
pub mod UserMemory
pub mod Calls
pub mod FlatMemory
