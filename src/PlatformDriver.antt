-- ===== src/PlatformDriver.antt =====
-- asm_11/ex_2_platform/ex_2_driver.c: the five devices of asm_11/ex_2_multi2/ex_2_multi2.c behind a
-- platform driver. Its table, `dev_open`, `dev_release`, `dev_read` and `dev_write` have the text of
-- those there, but for messages, and are the same definitions here.
pub mod Probe
pub mod Device
pub mod Bus
use Prim.Native.String.{String}
use linux_assignment.Prelude.{ℕ, List, ℤ, Outcome}
use linux_assignment.Kernel.UserMemory.{UserCopy}
use linux_assignment.MultiDriver
use linux_assignment.MultiDriver.{MyDevice, WriteReply, ReadReply}

abbrev pub devices : List MyDevice
devices = MultiDriver.devices

abbrev pub dev_open : List MyDevice → ℕ → Outcome ℕ
dev_open = MultiDriver.dev_open

abbrev pub dev_release : List MyDevice → ℕ → Outcome ℤ
dev_release = MultiDriver.dev_release

module _ (u : UserCopy) where
  abbrev pub dev_read : MyDevice → u.Memory → (buf len off : ℕ) → Outcome (ReadReply u)
  dev_read = MultiDriver.dev_read u

  abbrev pub dev_write : MyDevice → u.Memory → (buf len off : ℕ) → Outcome WriteReply
  dev_write = MultiDriver.dev_write u
