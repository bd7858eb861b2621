-- ===== src/MultiDriver/Files.antt =====
-- Calls through open files of the devices of asm_11/ex_2_multi2/ex_2_multi2.c, in any order. As the
-- kernel does for `read` and `write` on a file, a call gets the position of the file, and the
-- position is set to the offset that the call leaves unless the call returns an error. The
-- driver has no `llseek`, so a position is moved by these calls alone.
pub mod Invariant
pub mod Safety
use linux_assignment.Prelude.{
  ℕ, List, [], ◌∷◌, ◌++◌, Option, none, some, get_elem?, set, if◌then◌else◌, is_neg, Outcome, done,
  fault, ◌>>=◌,
}
use linux_assignment.Kernel.UserMemory.{UserCopy}
use linux_assignment.MultiDriver.{MyDevice, devices as table, dev_open, dev_read, dev_write}

-- `private_data` and `f_pos` of a `struct file`
pub record OpenFile : Type 0 where
  pub device : ℕ
  pub f_pos : ℕ

pub record System : Type 0 where
  pub devices : List MyDevice
  pub files : List OpenFile

-- after loading the module
abbrev pub loaded : System
loaded = record { devices = table; files = [] }

abbrev pub seek : OpenFile → ℕ → OpenFile
seek f off = record f { f_pos = off }

-- An index that names no device is a `private_data` that points outside `devices`.
abbrev pub device_of : System → OpenFile → Outcome MyDevice
device_of s f = elim (get_elem? s.devices f.device) [ none ↦ fault | some dev ↦ done dev ]

module _ (u : UserCopy) where
  open u use {Memory}

  -- What user space may do next; its memory is whatever it is at the time of the call. A number
  -- that is no open file makes the kernel refuse the call, which changes nothing.
  pub data Op : Type 0 where
    open_minor : ℕ → Op
    read : (fd : ℕ) → Memory → (buf len : ℕ) → Op
    write : (fd : ℕ) → Memory → (buf len : ℕ) → Op
    pread : (fd : ℕ) → Memory → (buf len off : ℕ) → Op
    pwrite : (fd : ℕ) → Memory → (buf len off : ℕ) → Op

  pub read_file : System → ℕ → OpenFile → Memory → (buf len : ℕ) → Outcome System
  read_file s fd f m buf len = do
    dev ← device_of s f
    r ← dev_read u dev m buf len f.f_pos
    done (record s { files = if is_neg r.ret then s.files else set s.files fd (seek f r.off) })

  pub write_file : System → ℕ → OpenFile → Memory → (buf len : ℕ) → Outcome System
  write_file s fd f m buf len = do
    dev ← device_of s f
    w ← dev_write u dev m buf len f.f_pos
    done (record {
      devices = set s.devices f.device w.dev;
      files = if is_neg w.ret then s.files else set s.files fd (seek f w.off);
    })

  -- `pread` and `pwrite` bring their own offset, and leave the position alone.
  pub read_at : System → OpenFile → Memory → (buf len off : ℕ) → Outcome System
  read_at s f m buf len off = do dev ← device_of s f; r ← dev_read u dev m buf len off; done s

  pub write_at : System → OpenFile → Memory → (buf len off : ℕ) → Outcome System
  write_at s f m buf len off = do
    dev ← device_of s f
    w ← dev_write u dev m buf len off
    done (record s { devices = set s.devices f.device w.dev })

  unfoldable pub perform : System → Op → Outcome System
  perform s (open_minor minor) = do
    data_index ← dev_open s.devices minor
    done (record s { files = s.files ++ (record { device = data_index; f_pos = 0 } ∷ []) })
  perform s (read fd m buf len) = elim (get_elem? s.files fd) [
    | none ↦ done s
    | some f ↦ read_file s fd f m buf len
  ]
  perform s (write fd m buf len) = elim (get_elem? s.files fd) [
    | none ↦ done s
    | some f ↦ write_file s fd f m buf len
  ]
  perform s (pread fd m buf len off) = elim (get_elem? s.files fd) [
    | none ↦ done s
    | some f ↦ read_at s f m buf len off
  ]
  perform s (pwrite fd m buf len off) = elim (get_elem? s.files fd) [
    | none ↦ done s
    | some f ↦ write_at s f m buf len off
  ]

  pub run : System → List Op → Outcome System
  run s [] = done s
  run s (op ∷ ops) = perform s op >>= λ s'. run s' ops
