-- ===== src/IoctlDriver/Tests.antt =====
-- The theorems on asm_11/ex_3/ex_3.c at inputs that meet their hypotheses.
use linux_assignment.Prelude.{ℕ, ◌≡◌, refl, List, [], ◌∷◌, arith}
use linux_assignment.Kernel.FlatMemory.{flat}
use linux_assignment.IoctlDriver.{size_of_value, etx_ioctl}
use linux_assignment.IoctlDriver.RoundTrip.{value_after, read_after_others}

abbrev typed : ℕ → ℕ
typed = λ a. a

abbrev zeros : List ℕ
zeros = 0 ∷ 0 ∷ 0 ∷ 0 ∷ []

-- the numbers that the macros make on a 64-bit machine
abbrev wr_value : ℕ
wr_value = 0x40086161

abbrev rd_value : ℕ
rd_value = 0x80086162

-- a read command, and one that the driver does not know
abbrev others : List (flat.Memory × ℕ × ℕ)
others = (typed, rd_value, 64) ∷ (typed, 7, 0) ∷ []

read_after_others_example :
    let written = (etx_ioctl flat wr_value rd_value zeros typed wr_value 16).value in
    let kept = value_after flat wr_value rd_value written others in
    let r = etx_ioctl flat wr_value rd_value kept typed rd_value 32 in
    flat.bytes r.mem 32 size_of_value ≡ flat.bytes typed 16 size_of_value
read_after_others_example =
    read_after_others flat wr_value rd_value zeros typed typed 16 32 others (λ e. omega arith)
      ((λ e. omega arith), ((λ e. omega arith), tt)) refl refl
