-- ===== src/Signals/Family.antt =====
-- `main` of asm_5 /Ex_5/ex_5.c: the parent and its three children, step by step. A step is a return of
-- one call of the parent, or one action of a child. `sleep` returns early when a handler has run, so it
-- may return at any time. A process that is stopped goes on with SIGCONT only, and SIGCONT has no
-- effect on one that is not; signals from other processes are left out.
pub mod Stopped
mod Tests
use linux_assignment.Prelude.{ℕ, ◌+◌, ◌≤◌, ◌<◌, ◌≡◌, List, [], ◌∷◌, ◌==◌, if◌then◌else◌}
use linux_assignment.Prelude.Sums.{assign}
use linux_assignment.Signals.Dispatch.{Action, sleep, raise_stop, raise_usr1, exit, child}

-- CHILD_COUNT and NUM_SIGNALS
abbrev pub child_count : ℕ
child_count = 3

abbrev pub num_signals : ℕ
num_signals = 3

pub data Parent : Type 0 where
  installing : (i : ℕ) → Parent  -- before the `i`th `sigaction`
  forking : (i : ℕ) → Parent  -- before the `i`th `fork`
  sleeping : Parent
  resuming : Parent  -- before `kill`
  pausing : Parent
  failed : Parent  -- `exit(EXIT_FAILURE)`

pub data Child : Type 0 where
  absent : Child
  running : List Action → Child  -- with what is still to be done
  stopped : List Action → Child
  exited : (status : ℕ) → Child

-- the effect of SIGCONT
abbrev pub continued : Child → Child
continued (stopped actions) = running actions
continued c = c

-- the effect of a process's own action; SIGUSR1 is handled, and the process goes on
abbrev pub act : Action → List Action → Child
act (sleep seconds) actions = running actions
act raise_stop actions = stopped actions
act raise_usr1 actions = running actions
act (exit status) actions = exited status

pub record System : Type 0 where
  pub parent : Parent
  pub children : ℕ → Child

abbrev pub start : System
start = record { parent = installing 0; children = λ i. absent }

pub data Step (s : System) : System → Type 0 where
  install :
      (i : ℕ)
      → s.parent ≡ installing i
      → i < num_signals
      → Step s (record s { parent = installing (i + 1) })
  install_fails :
      (i : ℕ) → s.parent ≡ installing i → i < num_signals → Step s (record s { parent = failed })
  all_installed :
      (i : ℕ) → s.parent ≡ installing i → num_signals ≤ i → Step s (record s { parent = forking 0 })
  fork :
      (i : ℕ)
      → s.parent ≡ forking i
      → i < child_count
      → Step s
          (record { parent = forking (i + 1); children = assign s.children i (running (child i)) })
  fork_fails :
      (i : ℕ) → s.parent ≡ forking i → i < child_count → Step s (record s { parent = failed })
  all_forked :
      (i : ℕ) → s.parent ≡ forking i → child_count ≤ i → Step s (record s { parent = sleeping })
  sleep_returns : s.parent ≡ sleeping → Step s (record s { parent = resuming })
  kill :
      s.parent ≡ resuming
      → Step s
          (record { parent = pausing; children = assign s.children 0 (continued (s.children 0)) })
  child_acts :
      (i : ℕ) (action : Action) (actions : List Action)
      → s.children i ≡ running (action ∷ actions)
      → Step s (record s { children = assign s.children i (act action actions) })

pub data Steps (s : System) : System → Type 0 where
  here : Steps s s
  next : {t v : System} → Steps s t → Step t v → Steps s v
