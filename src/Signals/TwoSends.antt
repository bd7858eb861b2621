-- ===== src/Signals/TwoSends.antt =====
-- "asm_5 /Ex_4/ex_4.c": process A blocks SIGUSR1, forks process B, which sends it twice, and unblocks
-- it. A step is one call of a process, with the messages around it; the lengths of the sleeps do not
-- order the steps, and `sleep` returns early when the handler has run. As documented, a signal that is
-- sent while it is blocked is pending once, however often it is sent, and is handled when unblocked.
pub mod Merged
mod Tests
use linux_assignment.Prelude.{ℕ, ◌+◌, ◌≡◌, Bool, true, false, if◌then◌else◌}

pub data StageA : Type 0 where
  preparing : StageA  -- before `signal`
  blocking : StageA  -- before the first `sigprocmask`
  forking : StageA
  asleep : StageA  -- in `sleep(5)`
  unblocking : StageA
  asleep_again : StageA  -- in `sleep(3)`
  waiting : StageA
  returned : StageA
  failed : StageA

pub data StageB : Type 0 where
  absent : StageB
  asleep_first : StageB  -- in `sleep(1)`
  sending_first : StageB
  asleep_second : StageB  -- in `sleep(3)`
  sending_second : StageB
  exiting : StageB
  exited : StageB

pub record System : Type 0 where
  pub a : StageA
  pub b : StageB
  pub blocked : Bool  -- whether A blocks SIGUSR1
  pub pending : Bool
  pub handled : ℕ  -- how often `sigusr1_handler` has run

abbrev pub start : System
start = record { a = preparing; b = absent; blocked = false; pending = false; handled = 0 }

-- `kill(getppid(), SIGUSR1)`
abbrev pub kill : System → System
kill s = record s {
  pending = if s.blocked then true else s.pending;
  handled = if s.blocked then s.handled else s.handled + 1;
}

-- `sigprocmask(SIG_UNBLOCK, …)`
abbrev pub unblock : System → System
unblock s = record s {
  blocked = false;
  pending = false;
  handled = if s.pending then s.handled + 1 else s.handled;
}

pub data Step (s : System) : System → Type 0 where
  signal : s.a ≡ preparing → Step s (record s { a = blocking })
  block : s.a ≡ blocking → Step s (record s { a = forking; blocked = true })
  fork : s.a ≡ forking → Step s (record s { a = asleep; b = asleep_first })
  fork_fails : s.a ≡ forking → Step s (record s { a = failed })
  sleep_returns : s.a ≡ asleep → Step s (record s { a = unblocking })
  unblocks : s.a ≡ unblocking → Step s (record (unblock s) { a = asleep_again })
  sleep_returns_again : s.a ≡ asleep_again → Step s (record s { a = waiting })
  wait_returns : s.a ≡ waiting → s.b ≡ exited → Step s (record s { a = returned })
  b_wakes : s.b ≡ asleep_first → Step s (record s { b = sending_first })
  sends_first : s.b ≡ sending_first → Step s (record (kill s) { b = asleep_second })
  b_wakes_again : s.b ≡ asleep_second → Step s (record s { b = sending_second })
  sends_second : s.b ≡ sending_second → Step s (record (kill s) { b = exiting })
  b_exits : s.b ≡ exiting → Step s (record s { b = exited })

pub data Steps (s : System) : System → Type 0 where
  here : Steps s s
  next : {t v : System} → Steps s t → Step t v → Steps s v
