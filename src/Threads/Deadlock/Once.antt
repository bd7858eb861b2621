-- ===== src/Threads/Deadlock/Once.antt =====
-- What thread 2 of asm_7/demo_deadlock.c does at most.
use linux_assignment.Prelude.{ℕ, ◌<◌, ◌≡◌, refl, arith}
use linux_assignment.Threads.Locks.{Mutex}
use linux_assignment.Threads.Deadlock.{
  Pc, head, printed, leaving, returned, System, Step, lock1_1, lock2_1, print_1, unlock2_1,
  unlock1_1, return_1, lock2_2, lock1_2, print_2, unlock1_2, unlock2_2, return_2, Reach, started,
  then_step,
}

module _ (m : Mutex) where
  -- how often thread 2 has printed where it stands
  abbrev printed_by : Pc → ℕ
  printed_by (printed left) = 1
  printed_by (leaving left) = 1
  printed_by returned = 1
  printed_by _ = 0

  record IsOnce (n : ℕ) (s : System m) : Type 0 where
    prints : s.prints2 ≡ printed_by s.pc2
    first_round : (left : ℕ) → s.pc2 ≡ head left → left ≡ n

  Step-IsOnce : {n : ℕ} {s t : System m} → 0 < n → Step m s t → IsOnce n s → IsOnce n t
  Step-IsOnce pos (lock1_1 left t at l) o = record {
    prints = o.prints;
    first_round = o.first_round;
  }
  Step-IsOnce pos (lock2_1 left t at l) o = record {
    prints = o.prints;
    first_round = o.first_round;
  }
  Step-IsOnce pos (print_1 left at) o = record { prints = o.prints; first_round = o.first_round }
  Step-IsOnce pos (unlock2_1 left t at l) o = record {
    prints = o.prints;
    first_round = o.first_round;
  }
  Step-IsOnce pos (unlock1_1 left t at l) o = record {
    prints = o.prints;
    first_round = o.first_round;
  }
  Step-IsOnce pos (return_1 at) o = record { prints = o.prints; first_round = o.first_round }
  Step-IsOnce pos (lock2_2 left t at l) o = record {
    prints = ground arith;
    first_round = λ k h. ground arith;
  }
  Step-IsOnce pos (lock1_2 left t at l) o = record {
    prints = ground arith;
    first_round = λ k h. ground arith;
  }
  Step-IsOnce pos (print_2 left at) o = record {
    prints = ground arith;
    first_round = λ k h. ground arith;
  }
  Step-IsOnce pos (unlock1_2 left t at l) o = record {
    prints = ground arith;
    first_round = λ k h. ground arith;
  }
  Step-IsOnce pos (unlock2_2 left t at l) o = record {
    prints = ground arith;
    first_round = λ k h. ground arith;
  }
  Step-IsOnce pos (return_2 at) o = absurd (ground (arith, o.first_round 0))

  Reach-IsOnce : {n : ℕ} {s : System m} → 0 < n → Reach m n s → IsOnce n s
  Reach-IsOnce pos started = record { prints = refl; first_round = λ k h. ground arith }
  Reach-IsOnce pos (then_step r st) = Step-IsOnce pos st (Reach-IsOnce pos r)

  -- In every reachable state in which thread 2 has returned it has printed once, however many
  -- rounds its loop has, if at least one.
  pub returns_after_one :
      {n : ℕ} {s : System m} → 0 < n → Reach m n s → s.pc2 ≡ returned → s.prints2 ≡ 1
  returns_after_one pos r at = ground (arith, Reach-IsOnce pos r)
