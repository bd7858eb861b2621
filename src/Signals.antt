-- ===== src/Signals.antt =====
-- Programs of asm_5: handlers found in a table, children that stop and go on, signals that are blocked.
pub mod Dispatch
pub mod Masks
pub mod Pending
pub mod OneSend
pub mod TwoSends
pub mod Family
pub mod Handlers
pub mod Interrupted
