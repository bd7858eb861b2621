-- ===== src/Threads/Turns/Missed.antt =====
-- The fault of asm_7/pthread_cond.c: `b_done` is a flag, so a second turn of thread 2 before the turn
-- of thread 3 is not counted, and thread 3 waits for ever.
use linux_assignment.Prelude.{◌+◌, ◌<◌, ◌≢◌, arith}
use linux_assignment.Threads.Locks.{Mutex}
use linux_assignment.Threads.Turns.{
  returned, System, start, Step, lock_1, back_off_1, retry_1, pass_1, body_1, signal_1, unlock_1,
  return_1, lock_2, wait_2, relock_2, pass_2, body_2, signal_2, unlock_2, return_2, lock_3, wait_3,
  relock_3, pass_3, body_3, unlock_3, return_3, wakeup_2, wakeup_3, Steps, here, next,
}
use linux_assignment.Threads.Turns.Invariant.{
  flag, turns_2, turns_3, IsConsistent, Steps-IsConsistent, Reach-IsConsistent,
}

module _ (m : Mutex) where
  -- a turn of thread 2 that thread 3 has not taken up and that `b_done` does not tell of
  abbrev pub HasMissed : System m → Type 0
  HasMissed s = turns_3 m s + flag s.b_done < turns_2 m s

  Step-HasMissed : {s t : System m} → Step m s t → IsConsistent m s → HasMissed s → HasMissed t
  Step-HasMissed (lock_1 t at lt l) c h = ground arith
  Step-HasMissed (back_off_1 t at e l) c h = ground arith
  Step-HasMissed (retry_1 t at l) c h = ground arith
  Step-HasMissed (pass_1 at e) c h = ground arith
  Step-HasMissed (body_1 at) c h = ground arith
  Step-HasMissed (signal_1 at) c h = ground arith
  Step-HasMissed (unlock_1 t at l) c h = ground arith
  Step-HasMissed (return_1 at le) c h = ground arith
  Step-HasMissed (lock_2 t at lt l) c h = ground arith
  Step-HasMissed (wait_2 t at e l) c h = ground arith
  Step-HasMissed (relock_2 t at l) c h = ground arith
  Step-HasMissed (pass_2 at e) c h = ground arith
  Step-HasMissed (body_2 at) c h = ground arith
  Step-HasMissed (signal_2 at) c h = ground arith
  Step-HasMissed (unlock_2 t at l) c h = ground arith
  Step-HasMissed (return_2 at le) c h = ground arith
  Step-HasMissed (lock_3 t at lt l) c h = ground arith
  Step-HasMissed (wait_3 t at e l) c h = ground arith
  Step-HasMissed (relock_3 t at l) c h = ground arith
  Step-HasMissed (pass_3 at e) c h = ground arith
  Step-HasMissed (body_3 at) c h = ground arith
  Step-HasMissed (unlock_3 t at l) c h = ground arith
  Step-HasMissed (return_3 at le) c h = ground arith
  Step-HasMissed (wakeup_2 at) c h = ground arith
  Step-HasMissed (wakeup_3 at) c h = ground arith

  Steps-HasMissed : {s t : System m} → Steps m s t → IsConsistent m s → HasMissed s → HasMissed t
  Steps-HasMissed here c h = h
  Steps-HasMissed (next r st) c h =
      Step-HasMissed st (Steps-IsConsistent m r c) (Steps-HasMissed r c h)

  -- Once the turns of thread 2 exceed those of thread 3 by more than `b_done` tells, thread 3 never
  -- returns, whatever the threads do from then on.
  pub missed-not-returned :
      {s t : System m} → Steps m (start m) s → HasMissed s → Steps m s t → t.stage3 ≢ returned
  missed-not-returned {t = t} r h rest e =
      let c = Steps-IsConsistent m rest (Reach-IsConsistent m r) in
      let missed = Steps-HasMissed rest (Reach-IsConsistent m r) h in ground (arith, c, missed)
