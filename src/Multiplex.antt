-- ===== src/Multiplex.antt =====
-- Programs of asm_4 that wait for several inputs at once.
pub mod Echo
pub mod Select
