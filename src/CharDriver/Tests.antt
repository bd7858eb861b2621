-- ===== src/CharDriver/Tests.antt =====
-- The theorems on asm_11/ex_2/ex_2.c at inputs that meet their hypotheses.
use linux_assignment.Prelude.{ℕ, ◌+◌, ◌-◌, ◌≤◌, ◌≡◌, ◌↔◌, refl, arith, min, pos, done, fault}
use linux_assignment.Kernel.FlatMemory.{flat}
use linux_assignment.CharDriver.{Driver, buffer_size, loaded, ReadReply, dev_read, dev_write}
use linux_assignment.CharDriver.Access.{loaded-IsValid, dev_write-fault_iff}
use linux_assignment.CharDriver.Transfer.{part, read_after_write}

-- user memory in which each byte is its address
abbrev typed : ℕ → ℕ
typed = λ a. a

read_after_write_example :
    (d' : Driver) × (r : ReadReply flat) × (dev_write flat loaded typed 10 3 ≡ done (pos 3, d'))
    × (dev_read flat d' typed 100 8 1 ≡ done r)
    × (r.ret ≡ pos (min 8 (3 - 1)))
    × (r.off ≡ 1 + min 8 (3 - 1))
    × (flat.bytes r.mem 100 (min 8 (3 - 1)) ≡ part flat typed 10 3 8 1)
read_after_write_example =
    read_after_write flat typed typed 10 3 100 8 1 loaded-IsValid (omega arith) (omega arith) refl
      refl

dev_write-fault_iff_example :
    (dev_write flat loaded typed 0 2000 ≡ fault)
    ↔ ((buffer_size ≤ 2000) × ((flat.copy_from_user typed 0 buffer_size).0 ≡ 0))
dev_write-fault_iff_example = dev_write-fault_iff flat typed 0 2000 loaded-IsValid
