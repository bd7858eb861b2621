-- ===== src/Processes/Fork/Reaped/Tests.antt =====
-- A run of asm_6/ex_2/ex_2.c: the child has exited while the parent sleeps.
use linux_assignment.Prelude.{◌≤◌, ◌⊎◌, refl}
use linux_assignment.Processes.Fork.{
  ex_2, exited, reaped, System, start, fork, parent_prints, sleep_returns, wait_returns,
  child_prints, child_exits, Steps, here, next,
}
use linux_assignment.Processes.Fork.Reaped.{number, IsEnd, CanStep, ends_reaped}

abbrev ended : System
ended = record { parent = exited 0; child = reaped }

abbrev whole_run : Steps ex_2 start ended
whole_run =
    next
      (next
        (next (next (next (next here (fork refl)) (parent_prints refl)) (child_prints refl))
          (child_exits refl))
        (sleep_returns refl))
      (wait_returns refl refl)

ends_reaped_example : (number whole_run ≤ 6) × (CanStep ex_2 ended ⊎ IsEnd ex_2 ended)
ends_reaped_example = ends_reaped whole_run
