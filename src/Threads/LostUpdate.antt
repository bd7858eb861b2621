-- ===== src/Threads/LostUpdate.antt =====
-- asm_7/ex_2/no_mutex.c: threads that count in one counter with no lock. `counter ++` reads and
-- writes the counter in two steps, between which other threads may make theirs.
pub mod Outcomes
use linux_assignment.Prelude.{ℕ, suc, ◌+◌, ◌<◌, ◌≡◌}
use linux_assignment.Prelude.Sums.{assign}

pub data Pc : Type 0 where
  idle : (left : ℕ) → Pc
  loaded : (left v : ℕ) → Pc

pub record System : Type 0 where
  pub counter : ℕ
  pub pc : ℕ → Pc

abbrev pub start : ℕ → System
start rounds = record { counter = 0; pc = λ _. idle rounds }

pub data Step (threads : ℕ) (s : System) : System → Type 0 where
  load :
      (i left : ℕ)
      → i < threads
      → s.pc i ≡ idle (suc left)
      → Step threads s (record s { pc = assign s.pc i (loaded left s.counter) })
  store :
      (i left v : ℕ)
      → i < threads
      → s.pc i ≡ loaded left v
      → Step threads s (record { counter = v + 1; pc = assign s.pc i (idle left) })

pub data Steps (threads : ℕ) (s : System) : System → Type 0 where
  here : Steps threads s s
  next : {t v : System} → Steps threads s t → Step threads t v → Steps threads s v
