-- ===== src/Threads/Race/Values.antt =====
-- asm_7/ex_1/ex_1.c: what may be left in `tmp`, and what main prints.
use linux_assignment.Prelude.{ℕ, ◌≤◌, ◌≡◌, ◌⊎◌, Bool, true, false, ◌&&◌, arith}
use linux_assignment.Threads.Race.{
  Pc, fresh, loaded, returned, System, start, Step, load_1, store_1, print_1, return_1, load_2,
  store_2, print_2, return_2, Steps, here, next,
}

abbrev has_stored : Pc → Bool
has_stored fresh = false
has_stored (loaded v) = false
has_stored _ = true

record IsPossible (s : System) : Type 0 where
  neither : has_stored s.pc_1 ≡ false → has_stored s.pc_2 ≡ false → s.tmp ≡ 5
  first : has_stored s.pc_1 ≡ true → has_stored s.pc_2 ≡ false → s.tmp ≡ 6
  second : has_stored s.pc_1 ≡ false → has_stored s.pc_2 ≡ true → s.tmp ≡ 7
  both : (6 ≤ s.tmp) × (s.tmp ≤ 8) ⊎ ((has_stored s.pc_1 && has_stored s.pc_2) ≡ false)
  read_1 : (v : ℕ) → s.pc_1 ≡ loaded v → (v ≡ 5) ⊎ (v ≡ 7) × (has_stored s.pc_2 ≡ true)
  read_2 : (v : ℕ) → s.pc_2 ≡ loaded v → (v ≡ 5) ⊎ (v ≡ 6) × (has_stored s.pc_1 ≡ true)
  result_1 : s.pc_1 ≡ returned → s.value_1 ≡ 100
  result_2 : s.pc_2 ≡ returned → s.value_2 ≡ 200

Step-IsPossible : {s t : System} → Step s t → IsPossible s → IsPossible t
Step-IsPossible (load_1 at) p = ground arith
Step-IsPossible (store_1 v at) p = ground (arith, p.read_1 v at)
Step-IsPossible (print_1 at) p = ground arith
Step-IsPossible (return_1 at) p = ground arith
Step-IsPossible (load_2 at) p = ground arith
Step-IsPossible (store_2 v at) p = ground (arith, p.read_2 v at)
Step-IsPossible (print_2 at) p = ground arith
Step-IsPossible (return_2 at) p = ground arith

Steps-IsPossible : {s : System} → Steps start s → IsPossible s
Steps-IsPossible here = ground arith
Steps-IsPossible (next r st) = Step-IsPossible st (Steps-IsPossible r)

-- When both threads have returned, `tmp` is 6, 7 or 8, and main prints 100 and 200.
pub values :
    {s : System}
    → Steps start s
    → s.pc_1 ≡ returned
    → s.pc_2 ≡ returned
    → (6 ≤ s.tmp) × (s.tmp ≤ 8) × (s.value_1 ≡ 100) × (s.value_2 ≡ 200)
values r end_1 end_2 = ground (arith, Steps-IsPossible r)
