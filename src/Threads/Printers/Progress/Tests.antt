-- ===== src/Threads/Printers/Progress/Tests.antt =====
-- One thread of asm_8/printer.c has its permit, and the mutex of `get_printer`.
use linux_assignment.Prelude.{◌*◌, ◌≤◌, ◌<◌, ◌≡◌, ◌⊎◌, ℕ, some, refl, arith}
use linux_assignment.Threads.Locks.{simple_mutex, simple_semaphore, locks}
use linux_assignment.Threads.Printers.{
  gone, System, Step, wait, take_lock, Reach, started, then_step,
}
use linux_assignment.Threads.Printers.Progress.{number, threads_end}

one_thread : 0 < 1
one_thread = omega arith

abbrev choosing_now :
    (s : System simple_mutex simple_semaphore) × Reach simple_mutex simple_semaphore 1 s
choosing_now = (
  _,
  then_step (then_step started (wait 0 2 one_thread refl refl))
      (take_lock 0 (some 0) one_thread refl (locks refl refl)),
)

threads_end_example :
    (number simple_mutex simple_semaphore choosing_now.1 ≤ 1 * 5)
    × (((t : System simple_mutex simple_semaphore) × Step simple_mutex simple_semaphore 1
            choosing_now.0 t)
        ⊎ ((i : ℕ) → i < 1 → choosing_now.0.pc i ≡ gone))
threads_end_example = threads_end simple_mutex simple_semaphore choosing_now.1
