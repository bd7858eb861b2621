-- ===== src/CharDriver/Refine/Tests.antt =====
-- The refinement of asm_11/ex_2/ex_2.c at calls of which one write and its copy fail.
use linux_assignment.Prelude.{ℕ, ◌≡◌, List, [], ◌∷◌}
use linux_assignment.Kernel.FlatMemory.{flat}
use linux_assignment.CharDriver.{loaded}
use linux_assignment.CharDriver.Access.{loaded-IsValid}
use linux_assignment.CharDriver.Spec.{Op, read, write, run, replay}
use linux_assignment.CharDriver.Refine.{text_of, seen, run_refines}

abbrev typed : ℕ → ℕ
typed = λ a. a

abbrev calls : List (Op flat)
calls = write typed 10 5 ∷ read typed 100 3 1 ∷ write typed 4090 20 ∷ read typed 100 3 0 ∷ []

run_refines_example : seen flat (run flat loaded calls) ≡ replay flat (text_of loaded) calls
run_refines_example = run_refines flat calls loaded-IsValid
