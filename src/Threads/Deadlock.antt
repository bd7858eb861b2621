-- ===== src/Threads/Deadlock.antt =====
-- asm_7/demo_deadlock.c: two threads that take two locks in opposite orders. A step is one lock or
-- unlock call; `increment_2` returns inside its loop, after the first round.
pub mod Embrace
pub mod Once
use linux_assignment.Prelude.{ℕ, zero, suc, ◌+◌, ◌≡◌}
use linux_assignment.Threads.Locks.{Mutex}

-- the bound of both loops
abbrev pub rounds : ℕ
rounds = 100_000

-- Where a thread stands in the round after which `left` are left.
pub data Pc : Type 0 where
  head : (left : ℕ) → Pc  -- before the round, `left` to go
  one : (left : ℕ) → Pc  -- asleep with its first lock
  both : (left : ℕ) → Pc  -- with both locks
  printed : (left : ℕ) → Pc  -- with both locks, after its message
  leaving : (left : ℕ) → Pc  -- the second lock is given back
  returned : Pc

module _ (m : Mutex) where
  open m use {State, initial, Lock, Unlock}

  -- `prints` counts the messages of each thread.
  pub record System : Type 0 where
    pub lock1 : State
    pub lock2 : State
    pub pc1 : Pc
    pub pc2 : Pc
    pub prints1 : ℕ
    pub prints2 : ℕ

  abbrev pub start : ℕ → System
  start n = record {
    lock1 = initial;
    lock2 = initial;
    pc1 = head n;
    pc2 = head n;
    prints1 = 0;
    prints2 = 0;
  }

  -- Thread 1 runs `increment_1`, thread 2 `increment_2`.
  pub data Step (s : System) : System → Type 0 where
    lock1_1 :
        (left : ℕ) (t : State)
        → s.pc1 ≡ head (suc left)
        → Lock s.lock1 1 t
        → Step s (record s { lock1 = t; pc1 = one left })
    lock2_1 :
        (left : ℕ) (t : State)
        → s.pc1 ≡ one left
        → Lock s.lock2 1 t
        → Step s (record s { lock2 = t; pc1 = both left })
    print_1 :
        (left : ℕ)
        → s.pc1 ≡ both left
        → Step s (record s { pc1 = printed left; prints1 = s.prints1 + 1 })
    unlock2_1 :
        (left : ℕ) (t : State)
        → s.pc1 ≡ printed left
        → Unlock s.lock2 1 t
        → Step s (record s { lock2 = t; pc1 = leaving left })
    unlock1_1 :
        (left : ℕ) (t : State)
        → s.pc1 ≡ leaving left
        → Unlock s.lock1 1 t
        → Step s (record s { lock1 = t; pc1 = head left })
    return_1 : s.pc1 ≡ head 0 → Step s (record s { pc1 = returned })
    lock2_2 :
        (left : ℕ) (t : State)
        → s.pc2 ≡ head (suc left)
        → Lock s.lock2 2 t
        → Step s (record s { lock2 = t; pc2 = one left })
    lock1_2 :
        (left : ℕ) (t : State)
        → s.pc2 ≡ one left
        → Lock s.lock1 2 t
        → Step s (record s { lock1 = t; pc2 = both left })
    print_2 :
        (left : ℕ)
        → s.pc2 ≡ both left
        → Step s (record s { pc2 = printed left; prints2 = s.prints2 + 1 })
    unlock1_2 :
        (left : ℕ) (t : State)
        → s.pc2 ≡ printed left
        → Unlock s.lock1 2 t
        → Step s (record s { lock1 = t; pc2 = leaving left })
    unlock2_2 :
        (left : ℕ) (t : State)
        → s.pc2 ≡ leaving left
        → Unlock s.lock2 2 t
        → Step s (record s { lock2 = t; pc2 = returned })
    return_2 : s.pc2 ≡ head 0 → Step s (record s { pc2 = returned })

  pub data Reach (n : ℕ) : System → Type 0 where
    started : Reach n (start n)
    then_step : {s t : System} → Reach n s → Step s t → Reach n t
