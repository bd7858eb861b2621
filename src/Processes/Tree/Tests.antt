-- ===== src/Processes/Tree/Tests.antt =====
-- The theorems on asm_6/ex_4/ex_4.c after a run with one parent and one child.
use linux_assignment.Prelude.{◌≡◌, ◌⊎◌, ◌≤◌, ◌*◌, ◌+◌, refl, arith}
use linux_assignment.Processes.Tree.{
  unset, reaped, finished, Level, fork, all_forked, waitpid, all_waited, process_steps, here, next,
  Child, exited, exit, Main,
}
use linux_assignment.Processes.Tree.Ends.{IsEnded, all_terminated}
use linux_assignment.Processes.Tree.Ends.Bound.{number, Main-ends}

abbrev forked_run : (s : Level (Level Child)) × Main 1 1 s
forked_run = (
  _,
  next
      (next
        (next (next here (fork 0 refl (omega arith)))
          (process_steps 0 _ _ refl (fork 0 refl (omega arith))))
        (process_steps 0 _ _ refl (process_steps 0 _ _ refl exit)))
      (process_steps 0 _ _ refl (all_forked 1 refl (omega arith))),
)

abbrev whole_run : (s : Level (Level Child)) × Main 1 1 s
whole_run = (
  _,
  next
      (next
        (next
          (next
            (next forked_run.1
              (process_steps 0 _ _ refl (waitpid 0 exited refl (omega arith) refl refl)))
            (process_steps 0 _ _ refl (all_waited 1 refl (omega arith))))
          (all_forked 1 refl (omega arith)))
        (waitpid 0 _ refl (omega arith) refl refl))
      (all_waited 1 refl (omega arith)),
)

all_terminated_example :
    (whole_run.0.entries 0 ≡ unset)
    ⊎ ((parent : Level Child) × (whole_run.0.entries 0 ≡ reaped parent)
        × (parent.loop ≡ finished)
        × IsEnded (parent.entries 0))
all_terminated_example = all_terminated 0 0 whole_run.1 refl (omega arith) (omega arith)

Main-ends_example : number whole_run.1 ≤ 1 * (3 * 1 + 4) + 2
Main-ends_example = Main-ends whole_run.1
