-- ===== src/Threads/Counter/Programs.antt =====
-- The other two programs that are `Counter` with other numbers: asm_8/ex_1/ex_1.c, whose threads
-- increment once, and asm_8/ex_4/ex_4.c, where the lock is a spinlock.
use linux_assignment.Prelude.{ℕ}
use linux_assignment.Threads.Locks.{Mutex}
use linux_assignment.Threads.Counter.{System, Step, Reach}

-- the numbers of asm_7/ex_2/mutex.c
abbrev pub mutex_threads : ℕ
mutex_threads = 2

abbrev pub mutex_rounds : ℕ
mutex_rounds = 100_000

-- INCREMENTS_PER_THREAD
abbrev pub increments_per_thread : ℕ
increments_per_thread = 100

module _ (m : Mutex) where
  -- `increment` of asm_8/ex_1/ex_1.c, with `n` threads: one round, after a sleep.
  abbrev pub OnceStep : ℕ → System m → System m → Type 0
  OnceStep n = Step m n

  abbrev pub OnceReach : ℕ → System m → Type 0
  OnceReach n = Reach m n 1

  -- `increment` of asm_8/ex_4/ex_4.c, with `n` threads.
  abbrev pub SpinStep : ℕ → System m → System m → Type 0
  SpinStep n = Step m n

  abbrev pub SpinReach : ℕ → System m → Type 0
  SpinReach n = Reach m n increments_per_thread
