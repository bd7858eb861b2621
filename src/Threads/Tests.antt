-- ===== src/Threads/Tests.antt =====
-- The theorems on the threads of asm_7 and asm_8 at small runs.
use linux_assignment.Prelude.{◌*◌, ◌≤◌, ◌<◌, ◌≡◌, ◌⊎◌, refl, none, some, arith}
use linux_assignment.Threads.Locks.{simple_mutex, simple_semaphore, locks, unlocks}
use linux_assignment.Threads.Counter
use linux_assignment.Threads.Counter.Progress.{Run, stop, go, Run-ends}
use linux_assignment.Threads.Deadlock
use linux_assignment.Threads.Deadlock.Embrace.{IsEmbrace, deadlock, stuck_cases}
use linux_assignment.Threads.Printers
use linux_assignment.Threads.Printers.Sharing.{shared_printer}

zero-lt-one : 0 < 1
zero-lt-one = omega arith

-- One thread of `Counter` counts once.
abbrev counted :
    (s : Counter.System simple_mutex) × Run simple_mutex 1 (Counter.start simple_mutex 1) 4 s
counted = (
  _,
  go (Counter.take_lock 0 0 (some 0) zero-lt-one refl (locks refl refl)) (
      go (Counter.load 0 0 zero-lt-one refl) (
        go (Counter.store 0 0 0 zero-lt-one refl)
          (go (Counter.release 0 0 none zero-lt-one refl (unlocks refl refl)) stop))),
)

Run-ends_example :
    (4 ≤ 1 * (4 * 1))
    × (((t : Counter.System simple_mutex) × Counter.Step simple_mutex 1 counted.0 t)
        ⊎ (counted.0.counter ≡ 1 * 1))
Run-ends_example = Run-ends simple_mutex counted.1

stuck_cases_example :
    let s = (deadlock simple_mutex 0).0 in
    IsEmbrace simple_mutex s ⊎ ((s.pc1 ≡ Deadlock.returned) × (s.pc2 ≡ Deadlock.returned))
stuck_cases_example =
    stuck_cases simple_mutex (deadlock simple_mutex 0).1 (deadlock simple_mutex 0).3

shared_printer_example :
    (s : Printers.System simple_mutex simple_semaphore) × Printers.Reach simple_mutex
      simple_semaphore 15 s
    × (s.pc 0 ≡ Printers.printing 1)
    × (s.pc 3 ≡ Printers.printing 1)
shared_printer_example = shared_printer simple_mutex simple_semaphore 15 (omega arith)
