-- ===== src/Processes/Fork.antt =====
-- asm_6/ex_1/ex_1.c and asm_6/ex_2/ex_2.c: a parent that forks one child and waits for it. They differ
-- in what the parent does before it waits, and in what main returns when fork fails. A step is one call
-- of a process. As documented, a process that has exited is a zombie until its parent waits for it.
pub mod Reaped
use linux_assignment.Prelude.{ℕ, ◌≡◌}

pub data Source : Type 0 where
  ex_1 : Source
  ex_2 : Source

pub data Parent : Type 0 where
  forking : Parent
  printing : Parent  -- in `ParentProcess`
  asleep : Parent  -- in `sleep(50)`
  waiting : Parent
  exited : (status : ℕ) → Parent

pub data Child : Type 0 where
  absent : Child
  printing : Child  -- in `ChildProcess`
  exiting : Child
  zombie : Child
  reaped : Child

-- what the parent does behind its message
abbrev pub after_printing : Source → Parent
after_printing ex_1 = waiting
after_printing ex_2 = asleep

-- what main returns when fork has failed
abbrev pub failed_status : Source → ℕ
failed_status ex_1 = 0
failed_status ex_2 = 1

pub record System : Type 0 where
  pub parent : Parent
  pub child : Child

abbrev pub start : System
start = record { parent = forking; child = absent }

pub data Step (source : Source) (s : System) : System → Type 0 where
  fork :
      s.parent ≡ forking
      → Step source s (record { parent = Parent.printing; child = Child.printing })
  fork_fails :
      s.parent ≡ forking → Step source s (record s { parent = exited (failed_status source) })
  parent_prints :
      s.parent ≡ Parent.printing → Step source s (record s { parent = after_printing source })
  sleep_returns : s.parent ≡ asleep → Step source s (record s { parent = waiting })
  wait_returns :
      s.parent ≡ waiting
      → s.child ≡ zombie
      → Step source s (record { parent = exited 0; child = reaped })
  child_prints : s.child ≡ Child.printing → Step source s (record s { child = exiting })
  child_exits : s.child ≡ exiting → Step source s (record s { child = zombie })

pub data Steps (source : Source) (s : System) : System → Type 0 where
  here : Steps source s s
  next : {t v : System} → Steps source s t → Step source t v → Steps source s v
