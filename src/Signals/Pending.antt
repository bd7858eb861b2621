-- ===== src/Signals/Pending.antt =====
-- "asm_5 /Ex_3/ex_3.c": SIGINT is blocked, and looked for among the pending signals once. Sets of
-- signals and numbers are those of Signals.Masks. A step is one call of main, or a signal that comes:
-- a blocked one is pending, any other ends the program (or is ignored by default, with no effect).
pub mod Forever
use linux_assignment.Prelude.{ℕ, zero, suc, ◌+◌, ◌-◌, ◌≡◌, Bool, true, false, if◌then◌else◌, ◌==◌}
use linux_assignment.Prelude.Sums.{assign}
use linux_assignment.Signals.Masks.{SignalNumbers, Sigset, sigemptyset, sigaddset, sig_block}

pub data Stage : Type 0 where
  blocking : Stage
  asleep : Stage
  checking : Stage
  exited : (status : ℕ) → Stage
  looping : Stage
  killed : Stage

pub record Process : Type 0 where
  pub stage : Stage
  pub mask : Sigset
  pub pending : Sigset

abbrev pub start : Process
start = record { stage = blocking; mask = sigemptyset; pending = sigemptyset }

-- whether a signal can come
abbrev pub is_live : Stage → Bool
is_live (exited status) = false
is_live killed = false
is_live _ = true

-- Whether one of `count` signals from `sig` on is a member: the loop from line 24 on.
abbrev pub has_member : (count sig : ℕ) → Sigset → Bool
has_member zero sig set = false
has_member (suc count) sig set =
    let rest = has_member count (sig + 1) set in if set sig then true else rest

pub data Step (n : SignalNumbers) (s : Process) : Process → Type 0 where
  block :
      s.stage ≡ blocking
      → Step n s
          (record s { stage = asleep; mask = sig_block (sigaddset sigemptyset n.sigint) s.mask })
  sleep_returns : s.stage ≡ asleep → Step n s (record s { stage = checking })
  check :
      s.stage ≡ checking
      → Step n s
          (record s { stage = if has_member (n.nsig - 1) 1 s.pending then exited 1 else looping })
  sigpending_fails : s.stage ≡ checking → Step n s (record s { stage = exited 1 })
  turn : s.stage ≡ looping → Step n s s
  kept :
      (sig : ℕ)
      → is_live s.stage ≡ true
      → s.mask sig ≡ true
      → Step n s (record s { pending = assign s.pending sig true })
  delivered :
      (sig : ℕ)
      → is_live s.stage ≡ true
      → s.mask sig ≡ false
      → Step n s (record s { stage = killed })
  ignored : (sig : ℕ) → is_live s.stage ≡ true → s.mask sig ≡ false → Step n s s

pub data Steps (n : SignalNumbers) (s : Process) : Process → Type 0 where
  here : Steps n s s
  next : {t v : Process} → Steps n s t → Step n t v → Steps n s v
