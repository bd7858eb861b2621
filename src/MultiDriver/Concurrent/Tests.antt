-- ===== src/MultiDriver/Concurrent/Tests.antt =====
-- The theorems on calls of asm_11/ex_2_multi2/ex_2_multi2.c at the same time: a read and a write.
use linux_assignment.Prelude.{ℕ, ◌≤◌, ◌≡◌, ◌≢◌, refl, [], ◌∷◌, arith, if◌then◌else◌, ◌==◌, get_or}
use linux_assignment.MultiDriver.{initial, devices}
use linux_assignment.MultiDriver.Concurrent.{
  Call, read_entered, write_entered, returned, overran, System, read_allowed, write_allowed, Steps,
  here, next,
}
use linux_assignment.MultiDriver.Concurrent.Overrun.{
  IsCalm, flags, sizes, calls_contained, read_overtaken_on_device,
}

-- call 0 reads 4096 bytes of hello1, call 1 writes one byte to it
abbrev calls : ℕ → Call
calls i =
    if i == 0
    then read_entered 3 4096 0
    else if i == 1
    then write_entered 3 (65 ∷ []) 0
    else returned

abbrev from_start : System
from_start = record { devices = λ dev. get_or devices dev (initial "" 0x0); calls = calls }

all-IsCalm : (i : ℕ) → IsCalm (flags from_start) (sizes from_start) (from_start.calls i)
all-IsCalm i = ground arith

all_fit : (dev : ℕ) → sizes from_start dev ≤ 1024
all_fit dev = ground arith

abbrev both_begun : (t : System) × Steps from_start t
both_begun = (
  _,
  next (next here (read_allowed 0 3 4096 0 refl (λ e. cc)))
      (write_allowed 1 3 (65 ∷ []) 0 refl (λ e. cc)),
)

calls_contained_example : both_begun.0.calls 0 ≢ overran
calls_contained_example = calls_contained 0 all_fit all-IsCalm both_begun.1

-- hello1 holds twelve bytes; call 0 reads 4096 bytes from the eighth on, call 1 writes one byte
abbrev twelve : System
twelve = record {
  devices = λ dev. record (get_or devices dev (initial "" 0x0)) { size = 12 };
  calls = λ i.
      if i == 0
      then read_entered 3 4096 8
      else if i == 1
      then write_entered 3 (65 ∷ []) 0
      else returned;
}

read_overtaken_on_device_example : (t : System) × Steps twelve t × (t.calls 0 ≡ overran)
read_overtaken_on_device_example =
    read_overtaken_on_device 0 1 3 4096 8 (65 ∷ []) refl refl (λ e. cc) (λ e. cc) (λ e. cc)
      (omega arith) (omega arith) (omega arith) (omega arith) (omega arith)
