-- ===== src/IoctlDriver.antt =====
-- asm_11/ex_3/ex_3.c, a driver that keeps one `int32_t`, and asm_11/ex_3/user_test.c, its client.
-- The value is kept as the four bytes that stand for it, which are all that is copied.
-- The command numbers are what `_IOW` and `_IOR` of the kernel make, parameters here.
pub mod RoundTrip
mod Tests
use linux_assignment.Prelude.{ℕ, List, [], ◌==◌, if◌then◌else◌, ℤ, pos, is_neg, Option, none, some}
use linux_assignment.Kernel.UserMemory.{UserCopy}

-- sizeof(int32_t)
abbrev pub size_of_value : ℕ
size_of_value = 4

-- `etx_read` and `etx_write`: nothing is read, and all is taken.
unfoldable pub etx_read : ℕ → ℤ
etx_read len = pos 0

unfoldable pub etx_write : ℕ → ℤ
etx_write len = pos len

module _ (u : UserCopy) (wr_value rd_value : ℕ) where
  open u use {Memory, bytes, copy_from_user, copy_to_user}

  pub record Reply : Type 0 where
    pub ret : ℤ
    pub value : List ℕ
    pub mem : Memory

  pub etx_ioctl : List ℕ → Memory → (cmd arg : ℕ) → Reply
  etx_ioctl value m cmd arg =
      if cmd == wr_value
      then record { ret = pos 0; value = (copy_from_user m arg size_of_value).1; mem = m }
      else if cmd == rd_value
      then record { ret = pos 0; value = value; mem = (copy_to_user m arg value).1 }
      else record { ret = pos 0; value = value; mem = m }

  -- `main`, with the descriptor that `open` returns and memory after `scanf`: the bytes of `value`
  -- that it prints, and the driver's value; nothing is printed if the file cannot be opened.
  pub main : ℤ → List ℕ → Memory → (number_at value_at : ℕ) → Option (List ℕ) × List ℕ
  main fd value m number_at value_at =
      if is_neg fd
      then (none, value)
      else let w = etx_ioctl value m wr_value number_at in
        let r = etx_ioctl w.value w.mem rd_value value_at in
        (some (bytes r.mem value_at size_of_value), r.value)
