-- ===== src/Threads/Printers.antt =====
-- asm_8/printer.c: threads that share three printers through a semaphore; `get_printer` hands the
-- printers out in turn, under a mutex. A step is one call of the two, or the two statements between
-- the lock and the unlock call of `get_printer`.
pub mod Kept
pub mod Progress
pub mod Sharing
use linux_assignment.Prelude.{
  ℕ, suc, ◌+◌, ◌%◌, ◌≤◌, ◌<◌, ◌≡◌, ◌≢◌, refl, List, [], ◌∷◌, Bool, true, false, Option, none, some,
  arith, ◌==◌, if◌then◌else◌, get_or,
}
use linux_assignment.Prelude.Sums.{assign}
use linux_assignment.Threads.Locks.{Mutex, Semaphore}

abbrev pub available_printers : List ℕ
available_printers = 1 ∷ 2 ∷ 3 ∷ []

pub data Pc : Type 0 where
  arriving : Pc  -- before `sem_wait`
  granted : Pc  -- before the lock call of `get_printer`
  choosing : Pc
  chosen : (printer : ℕ) → Pc  -- before the unlock call
  printing : (printer : ℕ) → Pc
  gone : Pc

module _ (m : Mutex) (w : Semaphore) where
  open w use {Wait, Post}
  open m use {Lock, Unlock}

  pub record System : Type 0 where
    pub sem : w.State
    pub lock : m.State
    pub printer_index : ℕ
    pub pc : ℕ → Pc

  abbrev pub start : System
  start = record { sem = w.initial 3; lock = m.initial; printer_index = 0; pc = λ _. arriving }

  pub data Step (n : ℕ) (s : System) : System → Type 0 where
    wait :
        (i : ℕ) (t : w.State)
        → i < n
        → s.pc i ≡ arriving
        → Wait s.sem t
        → Step n s (record s { sem = t; pc = assign s.pc i granted })
    take_lock :
        (i : ℕ) (t : m.State)
        → i < n
        → s.pc i ≡ granted
        → Lock s.lock i t
        → Step n s (record s { lock = t; pc = assign s.pc i choosing })
    choose :
        (i : ℕ)
        → i < n
        → s.pc i ≡ choosing
        → Step n s (record s {
          printer_index = (s.printer_index + 1) % 3;
          pc = assign s.pc i (chosen (get_or available_printers s.printer_index 0));
        })
    release :
        (i p : ℕ) (t : m.State)
        → i < n
        → s.pc i ≡ chosen p
        → Unlock s.lock i t
        → Step n s (record s { lock = t; pc = assign s.pc i (printing p) })
    post :
        (i p : ℕ) (t : w.State)
        → i < n
        → s.pc i ≡ printing p
        → Post s.sem t
        → Step n s (record s { sem = t; pc = assign s.pc i gone })

  pub data Reach (n : ℕ) : System → Type 0 where
    started : Reach n start
    then_step : {s t : System} → Reach n s → Step n s t → Reach n t
