-- ===== src/MultiDriver/Tests.antt =====
-- The theorems on asm_11/ex_2_multi2/ex_2_multi2.c at inputs that meet their hypotheses.
use linux_assignment.Prelude.{
  ℕ, ◌+◌, ◌-◌, min, ◌<◌, ◌≡◌, ◌≢◌, ◌↔◌, refl, List, [], ◌∷◌, arith, length-replicate, pos, done,
  fault,
}
use linux_assignment.Kernel.FlatMemory.{flat}
use linux_assignment.MultiDriver.{
  MyDevice, buffer_size, initial, may_write, ReadReply, WriteReply, dev_read, dev_write,
}
use linux_assignment.MultiDriver.Access.{IsValid, dev_write-overruns_iff}
use linux_assignment.MultiDriver.Files.{
  System, loaded, Op, open_minor, read, write, pread, pwrite, run,
}
use linux_assignment.MultiDriver.Files.Invariant.{IsSafe, Protects, loaded-IsSafe}
use linux_assignment.MultiDriver.Files.Safety.{run-IsSafe}
use linux_assignment.MultiDriver.Transfer.Anywhere.{part_at, read_back_at}

abbrev typed : ℕ → ℕ
typed = λ a. a

-- Open `hello1`, write to it and read from it, write at the end of its buffer, and
-- try a file that is not open.
abbrev session : List (Op flat)
session =
    open_minor 3
    ∷ write 0 typed 10 5
    ∷ open_minor 3
    ∷ read 1 typed 100 9
    ∷ pwrite 1 typed 10 4 1024
    ∷ pread 7 typed 0 1 2000
    ∷ []

run-IsSafe_example :
    (s' : System) × (run flat loaded session ≡ done s')
    × IsSafe s'
    × Protects loaded.devices s'.devices
run-IsSafe_example =
    run-IsSafe flat session loaded-IsSafe
      (omega arith, (tt, (omega arith, (tt, (omega arith, (tt, tt))))))

abbrev hello1 : MyDevice
hello1 = initial "hello1" 0x3

hello1-IsValid : IsValid hello1
hello1-IsValid = record { sized = length-replicate {A = ℕ} buffer_size 0; fits = omega arith }

dev_write-overruns_iff_example :
    (dev_write flat hello1 typed 0 4 1025 ≡ fault)
    ↔ ((may_write hello1 ≢ 0) × (buffer_size < 1025) × (0 < 4))
dev_write-overruns_iff_example =
    dev_write-overruns_iff flat typed 0 4 1025 hello1-IsValid (omega arith)

read_back_at_example :
    (w : WriteReply) × (r : ReadReply flat) × (dev_write flat hello1 typed 10 3 6 ≡ done w)
    × (dev_read flat w.dev typed 100 8 4 ≡ done r)
    × (w.ret ≡ pos 3)
    × (r.ret ≡ pos (min 8 (6 + 3 - 4)))
    × (flat.bytes r.mem 100 (min 8 (6 + 3 - 4)) ≡ part_at flat hello1 typed 10 3 6 8 4)
read_back_at_example =
    read_back_at flat typed typed 10 3 6 100 8 4 hello1-IsValid (λ e. omega arith)
      (λ e. omega arith) (omega arith) (omega arith) refl refl
