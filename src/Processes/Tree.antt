-- ===== src/Processes/Tree.antt =====
-- asm_6/ex_4/ex_4.c: main forks `x` parents and waits for each; each of them forks `y` children and
-- waits for each. Both loops are the same, so a level of the tree is described for any program that
-- the forked processes run. A step is one turn of a loop, or a step of a forked process. A fork that
-- fails leaves its entry of the array of process numbers unset, and waitpid is then called with a
-- value that nothing has written: it names no process of the loop, or one that another
-- entry names. The loops go on whatever waitpid answers, also for a process that is gone.
pub mod Ends
mod Tests
use linux_assignment.Prelude.{ℕ, ◌+◌, ◌≤◌, ◌<◌, ◌≡◌}
use linux_assignment.Prelude.Sums.{assign}

-- what a forked process runs
pub record Program (P : Type 0) : Type 1 where
  pub first : P
  pub IsStep : P → P → Type 0
  pub HasExited : P → Type 0

-- an entry of `children` or `parent`, with the process that it names
pub data Entry (P : Type 0) : Type 0 where
  unset : Entry P
  forked : P → Entry P
  reaped : P → Entry P

pub data Loop : Type 0 where
  forking : (i : ℕ) → Loop
  waiting : (i : ℕ) → Loop
  finished : Loop  -- after the last message

pub record Level (P : Type 0) : Type 0 where
  pub loop : Loop
  pub entries : ℕ → Entry P

abbrev pub start : {P : Type 0} → Level P
start = record { loop = forking 0; entries = λ i. unset }

-- The two loops of `ParentProcess`, and of `main`, over `n` processes.
pub data Step {P : Type 0} (program : Program P) (n : ℕ) (s : Level P) : Level P → Type 0 where
  fork :
      (i : ℕ)
      → s.loop ≡ forking i
      → i < n
      → Step program n s
          (record { loop = forking (i + 1); entries = assign s.entries i (forked program.first) })
  fork_fails :
      (i : ℕ) → s.loop ≡ forking i → i < n → Step program n s (record s { loop = forking (i + 1) })
  all_forked :
      (i : ℕ) → s.loop ≡ forking i → n ≤ i → Step program n s (record s { loop = waiting 0 })
  waitpid :
      (i : ℕ) (p : P)
      → s.loop ≡ waiting i
      → i < n
      → s.entries i ≡ forked p
      → program.HasExited p
      → Step program n s
          (record { loop = waiting (i + 1); entries = assign s.entries i (reaped p) })
  waitpid_unset :
      (i : ℕ)
      → s.loop ≡ waiting i
      → i < n
      → s.entries i ≡ unset
      → Step program n s (record s { loop = waiting (i + 1) })
  waitpid_unset_reaps :
      (i k : ℕ) (p : P)
      → s.loop ≡ waiting i
      → i < n
      → s.entries i ≡ unset
      → s.entries k ≡ forked p
      → program.HasExited p
      → Step program n s
          (record { loop = waiting (i + 1); entries = assign s.entries k (reaped p) })
  waitpid_gone :
      (i : ℕ) (p : P)
      → s.loop ≡ waiting i
      → i < n
      → s.entries i ≡ reaped p
      → Step program n s (record s { loop = waiting (i + 1) })
  all_waited :
      (i : ℕ) → s.loop ≡ waiting i → n ≤ i → Step program n s (record s { loop = finished })
  process_steps :
      (i : ℕ) (p q : P)
      → s.entries i ≡ forked p
      → program.IsStep p q
      → Step program n s (record s { entries = assign s.entries i (forked q) })

pub data Steps {P : Type 0} (program : Program P) (n : ℕ) (s : Level P) : Level P → Type 0 where
  here : Steps program n s s
  next : {t v : Level P} → Steps program n s t → Step program n t v → Steps program n s v

-- `ChildrenProcess`: it sleeps, and exits
pub data Child : Type 0 where
  sleeping : Child
  exited : Child

pub data ChildStep : Child → Child → Type 0 where
  exit : ChildStep sleeping exited

abbrev pub children_process : Program Child
children_process = record { first = sleeping; IsStep = ChildStep; HasExited = λ c. c ≡ exited }

-- `ParentProcess`, which exits after its last message
abbrev pub parent_process : ℕ → Program (Level Child)
parent_process y = record {
  first = start;
  IsStep = Step children_process y;
  HasExited = λ l. l.loop ≡ finished;
}

-- `main`, with the numbers that are typed
abbrev pub Main : ℕ → ℕ → Level (Level Child) → Type 0
Main x y = Steps (parent_process y) x start
