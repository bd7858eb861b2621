-- ===== src/MultiDriver/Client/Tests.antt =====
-- The theorems on asm_11/ex_2_multi2/ex_2_user.c with a driver that has just been loaded.
use linux_assignment.Prelude.{
  ℕ, zero, suc, ◌≡◌, refl, List, [], ◌∷◌, ◌++◌, map, true, arith, get_elem?, some, All, pos, done,
}
use linux_assignment.Kernel.FlatMemory.{flat, put}
use linux_assignment.MultiDriver.{MyDevice, initial}
use linux_assignment.MultiDriver.Files.{System, loaded}
use linux_assignment.MultiDriver.Files.Invariant.{loaded-IsSafe}
use linux_assignment.MultiDriver.Client.{
  device_names, Input, write_text, read_text, leave, other, Output, write_successful, data_read,
  exiting, main,
}
use linux_assignment.MultiDriver.Client.Session.{IsQuiet, nothing_back}
use linux_assignment.MultiDriver.Client.Again.{comes_back}

-- The program names the devices as the driver does, in the same order.
same_names : map (λ (dev : MyDevice). dev.name) loaded.devices ≡ device_names
same_names = refl

abbrev zeros : ℕ → ℕ
zeros = λ a. 0

-- "hi" and its zero byte at 100
abbrev hi_at_100 : ℕ → ℕ
hi_at_100 = put zeros 100 (104 ∷ 105 ∷ 0 ∷ [])

abbrev typed : List (Input flat)
typed = write_text hi_at_100 (104 ∷ 105 ∷ []) ∷ other 120 ∷ read_text zeros ∷ []

all_empty : (i : ℕ) (dev : MyDevice) → get_elem? loaded.devices i ≡ some dev → dev.size ≡ 0
all_empty zero dev e = ground arith
all_empty (suc zero) dev e = ground arith
all_empty (suc (suc zero)) dev e = ground arith
all_empty (suc (suc (suc zero))) dev e = ground arith
all_empty (suc (suc (suc (suc zero)))) dev e = ground arith
all_empty (suc (suc (suc (suc (suc i))))) dev e = cc

nothing_back_example :
    (outputs : List (Output flat)) × (s' : System) × (main flat 100 2000 loaded
        (some (pos 3))
        true
        (typed ++ leave ∷ [])
      ≡ done (outputs, s'))
    × All (IsQuiet flat 100 2000) outputs
nothing_back_example = nothing_back flat 100 2000 (pos 3) true typed loaded-IsSafe all_empty

comes_back_example :
    (s1 : System) × (s2 : System) × (main flat 100 2000 loaded
        (some (pos 3))
        true
        (write_text hi_at_100 (104 ∷ 105 ∷ []) ∷ leave ∷ [])
      ≡ done (write_successful ∷ exiting ∷ [], s1))
    × (main flat 100 2000 s1 (some (pos 3)) true (read_text zeros ∷ leave ∷ [])
        ≡ done (data_read (104 ∷ 105 ∷ []) ∷ exiting ∷ [], s2))
comes_back_example =
    comes_back flat 100 2000 3 hi_at_100 zeros (104 ∷ 105 ∷ []) {dev = initial "hello1" 0x3}
      loaded-IsSafe refl (λ e. omega arith) (λ e. omega arith) (omega arith)
      ((λ e. omega arith), ((λ e. omega arith), tt)) refl refl refl
