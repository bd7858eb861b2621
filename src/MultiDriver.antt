-- ===== src/MultiDriver.antt =====
-- asm_11/ex_2_multi2/ex_2_multi2.c: five character devices with permission flags.
-- `file->private_data` points into `devices`; it is the index there. An offset is not negative, since
-- the virtual file system refuses one that is.
pub mod Access
pub mod Bounds
pub mod Client
pub mod Concurrent
pub mod Files
pub mod Setup
pub mod Transfer
mod Tests
use Prim.Native.String.{String}
use linux_assignment.Prelude.{
  ℕ, ◌+◌, ◌-◌, ◌%◌, ◌^◌, List, [], ◌∷◌, Option, none, some, ◌==◌, leb, ltb, if◌then◌else◌, bit_and,
  min, length, ℤ, pos, eperm, efault, Outcome, done, fault, ◌>>=◌, slice, overwrite, replicate,
}
use linux_assignment.Kernel.UserMemory.{UserCopy}

-- BUFFER_SIZE and NUM_DEVICES
abbrev pub buffer_size : ℕ
buffer_size = 1024

abbrev pub num_devices : ℕ
num_devices = 5

-- `struct my_device`; the last two fields are those of its `struct device_data`.
pub record MyDevice : Type 0 where
  pub name : String
  pub perm_flag : ℕ
  pub buffer : List ℕ
  pub size : ℕ

abbrev pub initial : String → ℕ → MyDevice
initial name flag = record {
  name = name;
  perm_flag = flag;
  buffer = replicate buffer_size 0;
  size = 0;
}

abbrev pub devices : List MyDevice
devices =
    initial "sensor0" 0x1
    ∷ initial "sensor1" 0x0
    ∷ initial "hello0" 0x2
    ∷ initial "hello1" 0x3
    ∷ initial "goodbye" 0x1
    ∷ []

-- Both index `devices` by the minor number. `dev_open` returns the new `private_data`.
pub dev_open : List MyDevice → ℕ → Outcome ℕ
dev_open ds minor = if ltb minor (length ds) then done minor else fault

pub dev_release : List MyDevice → ℕ → Outcome ℤ
dev_release ds minor = if ltb minor (length ds) then done (pos 0) else fault

-- the tests `perm_flag & 0x2` and `perm_flag & 0x1`
abbrev pub may_read : MyDevice → ℕ
may_read dev = bit_and dev.perm_flag 0x2

abbrev pub may_write : MyDevice → ℕ
may_write dev = bit_and dev.perm_flag 0x1

-- `(size_t)(a - b)` for a signed 64-bit difference
abbrev pub size_t_sub : ℕ → ℕ → ℕ
size_t_sub a b = (a + 2 ^ 64 - b) % 2 ^ 64

module _ (u : UserCopy) where
  open u use {Memory, copy_from_user, copy_to_user}

  pub record ReadReply : Type 0 where
    pub ret : ℤ
    pub off : ℕ
    pub mem : Memory

  pub dev_read : MyDevice → Memory → (buf len off : ℕ) → Outcome ReadReply
  dev_read dev m buf len off =
      if may_read dev == 0
      then done (record { ret = eperm; off = off; mem = m })
      else if leb dev.size off
      then done (record { ret = pos 0; off = off; mem = m })
      else do
        let to_copy = min len (size_t_sub dev.size off)
        xs ← slice dev.buffer off to_copy
        let (left, m') = copy_to_user m buf xs
        if left == 0
            then done (record { ret = pos to_copy; off = off + to_copy; mem = m' })
            else done (record { ret = efault; off = off; mem = m' })

pub record WriteReply : Type 0 where
  pub ret : ℤ
  pub off : ℕ
  pub dev : MyDevice

module _ (u : UserCopy) where
  open u use {Memory, copy_from_user}

  -- `size` is an `int` and kept here as a number: the sum is above 2 ^ 31 only where no byte is written.
  pub dev_write : MyDevice → Memory → (buf len off : ℕ) → Outcome WriteReply
  dev_write dev m buf len off =
      if may_write dev == 0 then done (record { ret = eperm; off = off; dev = dev }) else do
        let to_copy = min len (size_t_sub buffer_size off)
        let (left, xs) = copy_from_user m buf to_copy
        copied ← overwrite dev.buffer off xs
        if left == 0
            then done (record {
              ret = pos to_copy;
              off = off + to_copy;
              dev = record dev { buffer = copied; size = off + to_copy };
            })
            else done (record { ret = efault; off = off; dev = record dev { buffer = copied } })
