-- ===== src/CharDriver/Concurrent/Tests.antt =====
-- The theorems on calls of asm_11/ex_2/ex_2.c at the same time: one read and one write.
use linux_assignment.Prelude.{ℕ, ◌≡◌, ◌≢◌, refl, [], ◌∷◌, arith, if◌then◌else◌, ◌==◌}
use linux_assignment.CharDriver.{loaded}
use linux_assignment.CharDriver.Concurrent.{
  Call, read_entered, write_entered, returned, overran, System, write_copies, read_end, Steps, here,
  next,
}
use linux_assignment.CharDriver.Concurrent.Overrun.{IsFromStart, contained, read_overtaken}

-- call 0 reads 4096 bytes from an offset on, call 1 writes one byte
abbrev calls : (off : ℕ) → ℕ → Call
calls off i =
    if i == 0 then read_entered 4096 off else if i == 1 then write_entered (65 ∷ []) else returned

abbrev twelve : System
twelve = record { driver = record loaded { buffer_len = 12 }; calls = calls 8 }

read_overtaken_example : (t : System) × Steps twelve t × (t.calls 0 ≡ overran)
read_overtaken_example =
    read_overtaken 0 1 4096 8 (65 ∷ []) refl refl (λ e. cc) (omega arith) (omega arith)
      (omega arith) (omega arith) (omega arith)

abbrev empty : System
empty = record { driver = loaded; calls = calls 0 }

from_start : (i : ℕ) → IsFromStart (empty.calls i)
from_start i = ground arith

abbrev both_begun : (t : System) × Steps empty t
both_begun =
    (_, next (next here (read_end 0 4096 0 refl (omega arith))) (write_copies 1 (65 ∷ []) refl))

contained_example : both_begun.0.calls 0 ≢ overran
contained_example = contained (omega arith) from_start both_begun.1 0
