-- ===== src/Processes/Fork/Reaped.antt =====
-- The end of main in asm_6/ex_1/ex_1.c and asm_6/ex_2/ex_2.c.
mod Tests
use linux_assignment.Prelude.{ℕ, ◌+◌, ◌≤◌, ◌<◌, ◌≡◌, ◌⊎◌, inl, inr, refl, arith}
use linux_assignment.Processes.Fork.{
  Source, ex_1, ex_2, Parent, forking, asleep, waiting, exited, Child, absent, exiting, zombie,
  reaped, failed_status, System, start, Step, fork, fork_fails, parent_prints, sleep_returns,
  wait_returns, child_prints, child_exits, Steps, here, next,
}

-- how far each process is from its end
abbrev parent_left : Parent → ℕ
parent_left forking = 6
parent_left Parent.printing = 3
parent_left asleep = 2
parent_left waiting = 1
parent_left (exited status) = 0

abbrev child_left : Child → ℕ
child_left Child.printing = 2
child_left exiting = 1
child_left _ = 0

steps_left : System → ℕ
steps_left s = parent_left s.parent + child_left s.child

-- how many steps have been made
abbrev pub number : {source : Source} {s t : System} → Steps source s t → ℕ
number here = 0
number (next r st) = number r + 1

-- main has returned: its child has been waited for, or there never was one
pub IsEnd : Source → System → Type 0
IsEnd source s =
    ((s.parent ≡ exited 0) × (s.child ≡ reaped))
    ⊎ ((s.parent ≡ exited (failed_status source)) × (s.child ≡ absent))

abbrev IsAlone : System → Type 0
IsAlone s = (s.parent ≡ forking) × (s.child ≡ absent)

abbrev AreTwo : System → Type 0
AreTwo s =
    ((s.parent ≡ Parent.printing) ⊎ ((s.parent ≡ asleep) ⊎ (s.parent ≡ waiting)))
    × ((s.child ≡ Child.printing) ⊎ ((s.child ≡ exiting) ⊎ (s.child ≡ zombie)))

IsOrderly : Source → System → Type 0
IsOrderly source s = IsAlone s ⊎ (AreTwo s ⊎ IsEnd source s)

Step-IsOrderly :
    {source : Source} {s t : System} → Step source s t → IsOrderly source s → IsOrderly source t
unfolding IsOrderly IsEnd
Step-IsOrderly (fork at) o = ground arith
Step-IsOrderly (fork_fails at) o = ground arith
Step-IsOrderly {source = ex_1} (parent_prints at) o = ground arith
Step-IsOrderly {source = ex_2} (parent_prints at) o = ground arith
Step-IsOrderly (sleep_returns at) o = ground arith
Step-IsOrderly (wait_returns at z) o = ground arith
Step-IsOrderly (child_prints at) o = ground arith
Step-IsOrderly (child_exits at) o = ground arith

Steps-IsOrderly : {source : Source} {s : System} → Steps source start s → IsOrderly source s
unfolding IsOrderly
Steps-IsOrderly here = inl (refl, refl)
Steps-IsOrderly (next r st) = Step-IsOrderly st (Steps-IsOrderly r)

Step-steps_left :
    {source : Source} {s t : System}
    → Step source s t
    → IsOrderly source s
    → steps_left t < steps_left s
unfolding IsOrderly IsEnd steps_left
Step-steps_left (fork at) o = ground arith
Step-steps_left (fork_fails at) o = ground arith
Step-steps_left {source = ex_1} (parent_prints at) o = ground arith
Step-steps_left {source = ex_2} (parent_prints at) o = ground arith
Step-steps_left (sleep_returns at) o = ground arith
Step-steps_left (wait_returns at z) o = ground arith
Step-steps_left (child_prints at) o = ground arith
Step-steps_left (child_exits at) o = ground arith

number_lem : {source : Source} {s : System} (r : Steps source start s) → number r + steps_left s ≤ 6
unfolding steps_left
number_lem here = omega arith
number_lem {source} {s} (next {t} r st) =
    omega (arith, number_lem r, Step-steps_left st (Steps-IsOrderly r))

pub CanStep : Source → System → Type 0
CanStep source s = (t : System) × Step source s t

two-CanStep : (source : Source) {s : System} → AreTwo s → CanStep source s
unfolding CanStep
two-CanStep source (inl p, c) = (_, parent_prints p)
two-CanStep source (inr (inl p), c) = (_, sleep_returns p)
two-CanStep source (inr (inr p), inl c) = (_, child_prints c)
two-CanStep source (inr (inr p), inr (inl c)) = (_, child_exits c)
two-CanStep source (inr (inr p), inr (inr c)) = (_, wait_returns p c)

-- A run makes at most six steps, and in every state that it reaches a further step is possible or main
-- has returned: with 0, and its child was waited for, or with the status of a fork that failed, and
-- there never was a child.
pub ends_reaped :
    {source : Source} {s : System} (r : Steps source start s)
    → (number r ≤ 6) × (CanStep source s ⊎ IsEnd source s)
unfolding IsOrderly CanStep
ends_reaped {source} {s} r = (
  omega (arith, number_lem r),
  elim (Steps-IsOrderly r) [
    | inl o ↦ inl (_, fork (o.0))
    | inr (inl o) ↦ inl (two-CanStep source o)
    | inr (inr e) ↦ inr e
  ],
)
