-- ===== src/Threads/Gate.antt =====
-- asm_8/ex_2/ex_2.c: threads that pass a semaphore one by one. A step is a return of `sem_wait` or of
-- `sem_post` in one thread.
use linux_assignment.Prelude.{ℕ, ◌+◌, ◌<◌, ◌≡◌, refl, arith}
use linux_assignment.Prelude.Sums.{assign, sum, sum-assign, sum-const}
use linux_assignment.Threads.Locks.{Semaphore}

-- the third argument of `sem_init`, and the number of threads of `main`
abbrev pub permits : ℕ
permits = 3

abbrev pub threads : ℕ
threads = 6

pub data Pc : Type 0 where
  arriving : Pc
  inside : Pc
  gone : Pc

abbrev pub is_inside : Pc → ℕ
is_inside inside = 1
is_inside _ = 0

module _ (w : Semaphore) where
  open w use {State, initial, value, Wait, Post, value-initial, Wait-value, Post-value}

  pub record System : Type 0 where
    pub sem : State
    pub pc : ℕ → Pc

  abbrev pub start : System
  start = record { sem = initial permits; pc = λ _. arriving }

  pub data Reach (n : ℕ) : System → Type 0 where
    started : Reach n start
    enter :
        {s : System} (i : ℕ) (t : State)
        → Reach n s
        → i < n
        → s.pc i ≡ arriving
        → Wait s.sem t
        → Reach n (record { sem = t; pc = assign s.pc i inside })
    leave :
        {s : System} (i : ℕ) (t : State)
        → Reach n s
        → i < n
        → s.pc i ≡ inside
        → Post s.sem t
        → Reach n (record { sem = t; pc = assign s.pc i gone })

  -- In every reachable state the permits that are left and the threads in the critical section make
  -- three.
  pub permits_kept : {n : ℕ} {s : System} → Reach n s → value s.sem + sum is_inside n s.pc ≡ permits
  permits_kept {n} started =
      omega (arith, value-initial permits, sum-const is_inside n 0 (λ _. arriving) (λ i lt. refl))
  permits_kept {n} (enter {s} i t r lt at move) =
      ground
        (arith, permits_kept r, Wait-value s.sem t move, sum-assign is_inside n s.pc i inside lt)
  permits_kept {n} (leave {s} i t r lt at move) =
      ground (arith, permits_kept r, Post-value s.sem t move, sum-assign is_inside n s.pc i gone lt)
