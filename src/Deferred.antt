-- ===== src/Deferred.antt =====
-- Work that the modules of asm_4 leave to the kernel to do later.
pub mod Tasklet
pub mod Work
