-- ===== src/Threads/Turns.antt =====
-- asm_7/pthread_cond.c: three threads that are to take turns, through the flags `a_done` and `b_done`.
-- A step is one lock or unlock call, one evaluation of a `while` condition, one signal, or the
-- statements between the loop and the signal, which the mutex protects.
pub mod Invariant
pub mod Missed
mod Tests
use linux_assignment.Prelude.{ℕ, ◌+◌, ◌≤◌, ◌<◌, ◌≡◌, Bool, true, false}
use linux_assignment.Threads.Locks.{Mutex}

-- NUM
abbrev pub num : ℕ
num = 5

pub data Stage : Type 0 where
  head : Stage  -- before the lock call
  test : Stage  -- at the `while`
  sleeping : Stage  -- thread 1 between unlock and lock in its `while`
  waiting : Stage  -- in `pthread_cond_wait`
  woken : Stage  -- in `pthread_cond_wait`, to take the mutex again
  body : Stage  -- behind the `while`
  signal : Stage  -- before `pthread_cond_signal`
  unlock : Stage  -- before the unlock call
  returned : Stage

-- `pthread_cond_signal` wakes the thread that waits, if it does.
abbrev pub wake : Stage → Stage
wake waiting = woken
wake st = st

module _ (m : Mutex) where
  open m use {State, initial, Lock, Unlock}

  -- The shared variables, and the stage and the loop variable of each thread.
  pub record System : Type 0 where
    pub lock : State
    pub a_done : Bool
    pub b_done : Bool
    pub stage1 : Stage
    pub i1 : ℕ
    pub stage2 : Stage
    pub i2 : ℕ
    pub stage3 : Stage
    pub i3 : ℕ

  abbrev pub start : System
  start = record {
    lock = initial;
    a_done = false;
    b_done = false;
    stage1 = head;
    i1 = 0;
    stage2 = head;
    i2 = 0;
    stage3 = head;
    i3 = 0;
  }

  pub data Step (s : System) : System → Type 0 where
    lock_1 :
        (t : State)
        → s.stage1 ≡ head
        → s.i1 < num
        → Lock s.lock 1 t
        → Step s (record s { lock = t; stage1 = test })
    back_off_1 :
        (t : State)
        → s.stage1 ≡ test
        → s.a_done ≡ true
        → Unlock s.lock 1 t
        → Step s (record s { lock = t; stage1 = sleeping })
    retry_1 :
        (t : State)
        → s.stage1 ≡ sleeping
        → Lock s.lock 1 t
        → Step s (record s { lock = t; stage1 = test })
    pass_1 : s.stage1 ≡ test → s.a_done ≡ false → Step s (record s { stage1 = body })
    body_1 : s.stage1 ≡ body → Step s (record s { a_done = true; stage1 = signal })
    signal_1 : s.stage1 ≡ signal → Step s (record s { stage2 = wake s.stage2; stage1 = unlock })
    unlock_1 :
        (t : State)
        → s.stage1 ≡ unlock
        → Unlock s.lock 1 t
        → Step s (record s { lock = t; stage1 = head; i1 = s.i1 + 1 })
    return_1 : s.stage1 ≡ head → num ≤ s.i1 → Step s (record s { stage1 = returned })
    lock_2 :
        (t : State)
        → s.stage2 ≡ head
        → s.i2 < num
        → Lock s.lock 2 t
        → Step s (record s { lock = t; stage2 = test })
    wait_2 :
        (t : State)
        → s.stage2 ≡ test
        → s.a_done ≡ false
        → Unlock s.lock 2 t
        → Step s (record s { lock = t; stage2 = waiting })
    relock_2 :
        (t : State)
        → s.stage2 ≡ woken
        → Lock s.lock 2 t
        → Step s (record s { lock = t; stage2 = test })
    pass_2 : s.stage2 ≡ test → s.a_done ≡ true → Step s (record s { stage2 = body })
    body_2 : s.stage2 ≡ body → Step s (record s { a_done = false; b_done = true; stage2 = signal })
    signal_2 : s.stage2 ≡ signal → Step s (record s { stage3 = wake s.stage3; stage2 = unlock })
    unlock_2 :
        (t : State)
        → s.stage2 ≡ unlock
        → Unlock s.lock 2 t
        → Step s (record s { lock = t; stage2 = head; i2 = s.i2 + 1 })
    return_2 : s.stage2 ≡ head → num ≤ s.i2 → Step s (record s { stage2 = returned })
    lock_3 :
        (t : State)
        → s.stage3 ≡ head
        → s.i3 < num
        → Lock s.lock 3 t
        → Step s (record s { lock = t; stage3 = test })
    wait_3 :
        (t : State)
        → s.stage3 ≡ test
        → s.b_done ≡ false
        → Unlock s.lock 3 t
        → Step s (record s { lock = t; stage3 = waiting })
    relock_3 :
        (t : State)
        → s.stage3 ≡ woken
        → Lock s.lock 3 t
        → Step s (record s { lock = t; stage3 = test })
    pass_3 : s.stage3 ≡ test → s.b_done ≡ true → Step s (record s { stage3 = body })
    body_3 : s.stage3 ≡ body → Step s (record s { b_done = false; stage3 = unlock })
    unlock_3 :
        (t : State)
        → s.stage3 ≡ unlock
        → Unlock s.lock 3 t
        → Step s (record s { lock = t; stage3 = head; i3 = s.i3 + 1 })
    return_3 : s.stage3 ≡ head → num ≤ s.i3 → Step s (record s { stage3 = returned })
    -- a wake-up by no signal
    wakeup_2 : s.stage2 ≡ waiting → Step s (record s { stage2 = woken })
    wakeup_3 : s.stage3 ≡ waiting → Step s (record s { stage3 = woken })

  pub data Steps (s : System) : System → Type 0 where
    here : Steps s s
    next : {t v : System} → Steps s t → Step t v → Steps s v
