-- ===== src/Threads/Counter.antt =====
-- `increment` of asm_7/ex_2/mutex.c: threads that count rounds in one counter, each under a lock.
-- The programs asm_8/ex_1/ex_1.c and asm_8/ex_4/ex_4.c do the same with other numbers of threads and
-- rounds. A step is one lock call, one access to `counter`, or one unlock call of one thread.
pub mod Invariant
pub mod Progress
pub mod Programs
use linux_assignment.Prelude.{ℕ, zero, suc, ◌+◌, ◌<◌, ◌≡◌}
use linux_assignment.Prelude.Sums.{assign}
use linux_assignment.Threads.Locks.{Mutex}

-- Where a thread stands, with the rounds that are left after the present one.
pub data Pc : Type 0 where
  idle : (left : ℕ) → Pc  -- at the head of the loop, `left` rounds to go
  locked : (left : ℕ) → Pc  -- the lock is taken
  loaded : (left v : ℕ) → Pc  -- `counter` is read
  stored : (left : ℕ) → Pc  -- `counter` is written

module _ (m : Mutex) where
  open m use {State, initial, Lock, Unlock}

  pub record System : Type 0 where
    pub lock : State
    pub counter : ℕ
    pub pc : ℕ → Pc

  -- `main` starts every thread with all its rounds to go.
  abbrev pub start : ℕ → System
  start rounds = record { lock = initial; counter = 0; pc = λ _. idle rounds }

  abbrev pub at : System → ℕ → Pc → ℕ → Pc
  at s i p = assign s.pc i p

  pub data Step (threads : ℕ) (s : System) : System → Type 0 where
    take_lock :
        (i left : ℕ) (t : State)
        → i < threads
        → s.pc i ≡ idle (suc left)
        → Lock s.lock i t
        → Step threads s (record s { lock = t; pc = at s i (locked left) })
    load :
        (i left : ℕ)
        → i < threads
        → s.pc i ≡ locked left
        → Step threads s (record s { pc = at s i (loaded left s.counter) })
    store :
        (i left v : ℕ)
        → i < threads
        → s.pc i ≡ loaded left v
        → Step threads s (record s { counter = v + 1; pc = at s i (stored left) })
    release :
        (i left : ℕ) (t : State)
        → i < threads
        → s.pc i ≡ stored left
        → Unlock s.lock i t
        → Step threads s (record s { lock = t; pc = at s i (idle left) })

  pub data Reach (threads rounds : ℕ) : System → Type 0 where
    started : Reach threads rounds (start rounds)
    then_step : {s t : System} → Reach threads rounds s → Step threads s t → Reach threads rounds t
