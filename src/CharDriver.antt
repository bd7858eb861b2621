-- ===== src/CharDriver.antt =====
-- asm_11/ex_2/ex_2.c: a character device over one kernel buffer.
-- `kernel_buffer`, `buffer_len` and the offset of an open file are the state; a function takes the
-- state and user memory, and returns what it changes. The virtual file system calls `dev_read` with
-- an offset that is not negative, so an offset is a natural number.
pub mod Access
pub mod Spec
pub mod Refine
pub mod Concurrent
pub mod Transfer
mod Tests
use linux_assignment.Prelude.{
  ℕ, ◌+◌, ◌-◌, List, ◌==◌, leb, ltb, if◌then◌else◌, ℤ, pos, efault, Outcome, done, ◌>>=◌, slice,
  overwrite, store, replicate,
}
use linux_assignment.Kernel.UserMemory.{UserCopy}

-- BUFFER_SIZE
abbrev pub buffer_size : ℕ
buffer_size = 1024

-- the static variables
pub record Driver : Type 0 where
  pub kernel_buffer : List ℕ
  pub buffer_len : ℕ

abbrev pub loaded : Driver
loaded = record { kernel_buffer = replicate buffer_size 0; buffer_len = 0 }

module _ (u : UserCopy) where
  open u use {Memory, copy_from_user, copy_to_user}

  pub record ReadReply : Type 0 where
    pub ret : ℤ
    pub off : ℕ
    pub mem : Memory

  pub dev_read : Driver → Memory → (buf len off : ℕ) → Outcome ReadReply
  dev_read d m buf len off =
      if leb d.buffer_len off then done (record { ret = pos 0; off = off; mem = m }) else do
        let n = if ltb (d.buffer_len - off) len then d.buffer_len - off else len
        xs ← slice d.kernel_buffer off n
        let (left, m') = copy_to_user m buf xs
        if left == 0
            then done (record { ret = pos n; off = off + n; mem = m' })
            else done (record { ret = efault; off = off; mem = m' })

  -- `*off` is neither read nor written.
  pub dev_write : Driver → Memory → (buf len : ℕ) → Outcome (ℤ × Driver)
  dev_write d m buf len = do
    let n = if ltb buffer_size len then buffer_size else len
    let (left, xs) = copy_from_user m buf n
    copied ← overwrite d.kernel_buffer 0 xs
    if left == 0
        then (do
          terminated ← store copied n 0
          done (pos n, record { kernel_buffer = terminated; buffer_len = n }))
        else done (efault, record d { kernel_buffer = copied })
