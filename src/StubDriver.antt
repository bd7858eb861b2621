-- ===== src/StubDriver.antt =====
-- The file operations of asm_11/ex_1/ex_1.c, which keep no state.
pub mod Answers
use linux_assignment.Prelude.{ℕ, ℤ, pos}

pub dev_open : ℤ
dev_open = pos 0

pub dev_release : ℤ
dev_release = pos 0

-- No byte is delivered, and the bytes that are offered are not looked at.
pub dev_read : (len : ℕ) → ℤ
dev_read len = pos 0

pub dev_write : (len : ℕ) → ℤ
dev_write len = pos len

-- a call on the device file
pub data Call : Type 0 where
  open_file : Call
  release_file : Call
  read : (len : ℕ) → Call
  write : (len : ℕ) → Call

-- what `fops` answers
pub answer : Call → ℤ
answer open_file = dev_open
answer release_file = dev_release
answer (read len) = dev_read len
answer (write len) = dev_write len
