-- ===== src/Processes.antt =====
-- Processes that share memory (asm_8/ex_3), send messages ("asm_5 /message_queue") and fork (asm_6/ex_4).
pub mod Fork
pub mod Queue
pub mod Segment
pub mod Tree
