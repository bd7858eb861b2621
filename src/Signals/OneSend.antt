-- ===== src/Signals/OneSend.antt =====
-- "asm_5 /Ex_4/ex_4_expand.c": process B installs a handler, blocks SIGUSR1 and unblocks it; process A
-- sends the signal once. A step is one call; the lengths of the sleeps do not order the steps. With no
-- handler the signal ends process B.
pub mod Early
use linux_assignment.Prelude.{ℕ, ◌+◌, ◌≡◌, Bool, true, false, if◌then◌else◌}

pub data StageA : Type 0 where
  forking : StageA
  failed : StageA
  asleep : StageA  -- in `sleep(2)`
  sending : StageA
  asleep_again : StageA
  waiting : StageA
  returned : StageA

pub data StageB : Type 0 where
  absent : StageB
  asleep_first : StageB  -- in `sleep(1)`
  installing : StageB
  blocking : StageB
  asleep_blocked : StageB  -- in `sleep(3)`
  unblocking : StageB
  exiting : StageB
  exited : StageB
  killed : StageB

pub record System : Type 0 where
  pub a : StageA
  pub b : StageB
  pub pending : Bool
  pub handled : ℕ  -- how often B's `sigusr1_handler` has run

abbrev pub start : System
start = record { a = forking; b = absent; pending = false; handled = 0 }

-- the effect of SIGUSR1 on B
abbrev pub receive : System → System
receive s = elim s.b [
  | absent ↦ s
  | asleep_first ↦ record s { b = killed }
  | installing ↦ record s { b = killed }
  | blocking ↦ record s { handled = s.handled + 1 }
  | asleep_blocked ↦ record s { pending = true }
  | unblocking ↦ record s { pending = true }
  | exiting ↦ record s { handled = s.handled + 1 }
  | exited ↦ s
  | killed ↦ s
]

pub data Step (s : System) : System → Type 0 where
  fork : s.a ≡ forking → Step s (record s { a = asleep; b = asleep_first })
  fork_fails : s.a ≡ forking → Step s (record s { a = failed })
  a_wakes : s.a ≡ asleep → Step s (record s { a = sending })
  kill : s.a ≡ sending → Step s (record (receive s) { a = asleep_again })
  a_wakes_again : s.a ≡ asleep_again → Step s (record s { a = waiting })
  wait_returns : s.a ≡ waiting → s.b ≡ exited → Step s (record s { a = returned })
  wait_returns_killed : s.a ≡ waiting → s.b ≡ killed → Step s (record s { a = returned })
  b_wakes : s.b ≡ asleep_first → Step s (record s { b = installing })
  signal : s.b ≡ installing → Step s (record s { b = blocking })
  block : s.b ≡ blocking → Step s (record s { b = asleep_blocked })
  b_wakes_again : s.b ≡ asleep_blocked → Step s (record s { b = unblocking })
  unblock :
      s.b ≡ unblocking
      → Step s (record s {
        b = exiting;
        pending = false;
        handled = if s.pending then s.handled + 1 else s.handled;
      })
  exit : s.b ≡ exiting → Step s (record s { b = exited })

pub data Steps (s : System) : System → Type 0 where
  here : Steps s s
  next : {t v : System} → Steps s t → Step t v → Steps s v
