-- ===== src/Threads/Turns/Tests.antt =====
-- The theorems on asm_7/pthread_cond.c after two turns of each of the first two threads.
use linux_assignment.Prelude.{◌<◌, ◌≢◌, refl, none, some, arith}
use linux_assignment.Threads.Locks.{simple_mutex, locks, unlocks}
use linux_assignment.Threads.Turns.{
  num, returned, System, start, lock_1, pass_1, body_1, signal_1, unlock_1, lock_2, pass_2, body_2,
  signal_2, unlock_2, lock_3, pass_3, body_3, Steps, here, next,
}
use linux_assignment.Threads.Turns.Missed.{HasMissed, missed-not-returned}

zero_round : 0 < num
zero_round = omega arith

one_round : 1 < num
one_round = omega arith

-- Threads 1 and 2 take two turns each before thread 3 takes its first.
abbrev twice : (s : System simple_mutex) × Steps simple_mutex (start simple_mutex) s
twice = (
  _,
  next
      (next
        (next
          (next
            (next
              (next
                (next
                  (next
                    (next
                      (next
                        (next
                          (next
                            (next
                              (next
                                (next
                                  (next
                                    (next
                                      (next
                                        (next
                                          (next here
                                            (lock_1 (some 1) refl zero_round (locks refl refl)))
                                          (pass_1 refl refl))
                                        (body_1 refl))
                                      (signal_1 refl))
                                    (unlock_1 none refl (unlocks refl refl)))
                                  (lock_2 (some 2) refl zero_round (locks refl refl)))
                                (pass_2 refl refl))
                              (body_2 refl))
                            (signal_2 refl))
                          (unlock_2 none refl (unlocks refl refl)))
                        (lock_1 (some 1) refl one_round (locks refl refl)))
                      (pass_1 refl refl))
                    (body_1 refl))
                  (signal_1 refl))
                (unlock_1 none refl (unlocks refl refl)))
              (lock_2 (some 2) refl one_round (locks refl refl)))
            (pass_2 refl refl))
          (body_2 refl))
        (signal_2 refl))
      (unlock_2 none refl (unlocks refl refl)),
)

-- Thread 3 takes the one turn that it can.
abbrev third : (s : System simple_mutex) × Steps simple_mutex twice.0 s
third = (
  _,
  next (next (next here (lock_3 (some 3) refl zero_round (locks refl refl))) (pass_3 refl refl))
      (body_3 refl),
)

twice-HasMissed : HasMissed simple_mutex twice.0
twice-HasMissed = omega arith

missed-not-returned_example : third.0.stage3 ≢ returned
missed-not-returned_example = missed-not-returned simple_mutex twice.1 twice-HasMissed third.1
