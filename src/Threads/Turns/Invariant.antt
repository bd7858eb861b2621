-- ===== src/Threads/Turns/Invariant.antt =====
-- What holds between the flags and the rounds of asm_7/pthread_cond.c at every moment.
use linux_assignment.Prelude.{
  ℕ, ◌+◌, ◌≤◌, ◌<◌, ◌≡◌, Bool, true, false, ◌&&◌, some, arith, if◌then◌else◌,
}
use linux_assignment.Threads.Locks.{Mutex}
use linux_assignment.Threads.Turns.{
  num, Stage, head, test, body, signal, unlock, returned, System, start, Step, lock_1, back_off_1,
  retry_1, pass_1, body_1, signal_1, unlock_1, return_1, lock_2, wait_2, relock_2, pass_2, body_2,
  signal_2, unlock_2, return_2, lock_3, wait_3, relock_3, pass_3, body_3, unlock_3, return_3,
  wakeup_2, wakeup_3, Steps, here, next,
}

-- whether the turn of the round is already taken
abbrev pub round_done : Stage → ℕ
round_done signal = 1
round_done unlock = 1
round_done _ = 0

-- whether a thread has the mutex
abbrev pub holding : Stage → Bool
holding test = true
holding body = true
holding signal = true
holding unlock = true
holding _ = false

-- whether a thread is in a round
abbrev pub in_round : Stage → Bool
in_round head = false
in_round returned = false
in_round _ = true

abbrev pub flag : Bool → ℕ
flag b = if b then 1 else 0

module _ (m : Mutex) where
  open m use {owner, initial-free, Lock-free, Lock-owner, Unlock-free}

  -- the turns that each thread has taken
  abbrev pub turns_1 : System m → ℕ
  turns_1 s = s.i1 + round_done s.stage1

  abbrev pub turns_2 : System m → ℕ
  turns_2 s = s.i2 + round_done s.stage2

  abbrev pub turns_3 : System m → ℕ
  turns_3 s = s.i3 + round_done s.stage3

  pub record IsConsistent (s : System m) : Type 0 where
    pub alternate : turns_1 s ≡ turns_2 s + flag s.a_done
    pub behind : turns_3 s + flag s.b_done ≤ turns_2 s
    pub inside_1 : in_round s.stage1 ≡ true → s.i1 < num
    pub rounds_1 : s.i1 ≤ num
    pub over_1 : s.stage1 ≡ returned → s.i1 ≡ num
    pub owned_1 : holding s.stage1 ≡ true → owner s.lock ≡ some 1
    pub inside_2 : in_round s.stage2 ≡ true → s.i2 < num
    pub rounds_2 : s.i2 ≤ num
    pub over_2 : s.stage2 ≡ returned → s.i2 ≡ num
    pub owned_2 : holding s.stage2 ≡ true → owner s.lock ≡ some 2
    pub inside_3 : in_round s.stage3 ≡ true → s.i3 < num
    pub rounds_3 : s.i3 ≤ num
    pub over_3 : s.stage3 ≡ returned → s.i3 ≡ num
    pub owned_3 : holding s.stage3 ≡ true → owner s.lock ≡ some 3
    pub ready_1 : s.stage1 ≡ body → s.a_done ≡ false
    pub ready_2 : s.stage2 ≡ body → s.a_done ≡ true
    pub ready_3 : s.stage3 ≡ body → s.b_done ≡ true

  start-IsConsistent : IsConsistent (start m)
  start-IsConsistent = ground arith

  Step-IsConsistent : {s t : System m} → Step m s t → IsConsistent s → IsConsistent t
  Step-IsConsistent {s} (lock_1 t at lt l) c =
      ground (arith, Lock-free s.lock 1 t l, Lock-owner s.lock 1 t l)
  Step-IsConsistent {s} (back_off_1 t at e l) c = ground (arith, Unlock-free s.lock 1 t l)
  Step-IsConsistent {s} (retry_1 t at l) c =
      ground (arith, Lock-free s.lock 1 t l, Lock-owner s.lock 1 t l)
  Step-IsConsistent {s} (pass_1 at e) c = ground arith
  Step-IsConsistent {s} (body_1 at) c = ground arith
  Step-IsConsistent {s} (signal_1 at) c = ground arith
  Step-IsConsistent {s} (unlock_1 t at l) c = ground (arith, Unlock-free s.lock 1 t l)
  Step-IsConsistent {s} (return_1 at le) c = ground arith
  Step-IsConsistent {s} (lock_2 t at lt l) c =
      ground (arith, Lock-free s.lock 2 t l, Lock-owner s.lock 2 t l)
  Step-IsConsistent {s} (wait_2 t at e l) c = ground (arith, Unlock-free s.lock 2 t l)
  Step-IsConsistent {s} (relock_2 t at l) c =
      ground (arith, Lock-free s.lock 2 t l, Lock-owner s.lock 2 t l)
  Step-IsConsistent {s} (pass_2 at e) c = ground arith
  Step-IsConsistent {s} (body_2 at) c = ground arith
  Step-IsConsistent {s} (signal_2 at) c = ground arith
  Step-IsConsistent {s} (unlock_2 t at l) c = ground (arith, Unlock-free s.lock 2 t l)
  Step-IsConsistent {s} (return_2 at le) c = ground arith
  Step-IsConsistent {s} (lock_3 t at lt l) c =
      ground (arith, Lock-free s.lock 3 t l, Lock-owner s.lock 3 t l)
  Step-IsConsistent {s} (wait_3 t at e l) c = ground (arith, Unlock-free s.lock 3 t l)
  Step-IsConsistent {s} (relock_3 t at l) c =
      ground (arith, Lock-free s.lock 3 t l, Lock-owner s.lock 3 t l)
  Step-IsConsistent {s} (pass_3 at e) c = ground arith
  Step-IsConsistent {s} (body_3 at) c = ground arith
  Step-IsConsistent {s} (unlock_3 t at l) c = ground (arith, Unlock-free s.lock 3 t l)
  Step-IsConsistent {s} (return_3 at le) c = ground arith
  Step-IsConsistent {s} (wakeup_2 at) c = ground arith
  Step-IsConsistent {s} (wakeup_3 at) c = ground arith

  pub Steps-IsConsistent : {s t : System m} → Steps m s t → IsConsistent s → IsConsistent t
  Steps-IsConsistent here c = c
  Steps-IsConsistent (next r st) c = Step-IsConsistent st (Steps-IsConsistent r c)

  -- In every reachable state the mutex has one holder at most; the turns of thread 1 are those of
  -- thread 2, and one more while `a_done` is set; and thread 3 never takes more turns than thread
  -- 2, nor as many while `b_done` is set.
  pub turns :
      {s : System m}
      → Steps m (start m) s
      → (turns_1 s ≡ turns_2 s + flag s.a_done)
        × (turns_3 s + flag s.b_done ≤ turns_2 s)
        × (holding s.stage1 && holding s.stage2 ≡ false)
        × (holding s.stage1 && holding s.stage3 ≡ false)
        × (holding s.stage2 && holding s.stage3 ≡ false)
  turns {s} r =
      let c = Steps-IsConsistent r start-IsConsistent in
      (c.alternate, c.behind, ground arith, ground arith, ground arith)

  pub Reach-IsConsistent : {s : System m} → Steps m (start m) s → IsConsistent s
  Reach-IsConsistent r = Steps-IsConsistent r start-IsConsistent
