-- ===== src/Threads/Buffer/Ends/Tests.antt =====
-- The bound on runs of asm_7/ex_3/ex_3.c at a short run.
use linux_assignment.Prelude.{◌+◌, ◌*◌, ◌≤◌, ◌≡◌, ◌⊎◌, refl, none, some, arith}
use linux_assignment.Threads.Locks.{simple_mutex, locks, unlocks}
use linux_assignment.Threads.Buffer.{System, Step, returned, c_lock, c_wait, c_wakeup}
use linux_assignment.Threads.Buffer.Ends.{Run, begin, step, chance, stops}

-- The consumer finds nothing, waits, and is woken by no signal.
abbrev woken_early : (s : System simple_mutex) × Run simple_mutex 2 1 s
woken_early = (
  _,
  chance
      (step (step begin (c_lock (some 2) refl (omega arith) (locks refl refl)))
        (c_wait none refl refl (unlocks refl refl)))
      (c_wakeup refl),
)

stops_example :
    let s = woken_early.0 in
    (2 ≤ 142 + 2 * 1)
    × (((t : System simple_mutex) × Step simple_mutex s t)
        ⊎ ((s.producer ≡ returned)
            × (s.consumer ≡ returned)
            × (s.buffer_index ≡ 0)
            × (s.producer_sum ≡ 55)
            × (s.consumer_sum ≡ 55)))
stops_example = stops simple_mutex woken_early.1
