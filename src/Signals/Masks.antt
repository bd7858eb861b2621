-- ===== src/Signals/Masks.antt =====
-- "asm_5 /Ex_2/ex_2.c": three signals are blocked for a while, and unblocked. A set of signals is a
-- function into Bool. Signal numbers and NSIG are of the C library: a parameter. A step is one call of
-- main. As documented, a signal that comes while it is blocked is pending; at least one of the pending
-- signals that sigprocmask unblocks is delivered before it returns; and the three signals of this
-- program end it. Signals other than the three are left out.
pub mod Printed
pub mod Held
mod Tests
use linux_assignment.Prelude.{
  ℕ, zero, suc, ◌+◌, ◌-◌, ◌≡◌, List, [], ◌∷◌, Bool, true, false, not, ◌==◌, ◌&&◌, ◌||◌,
  if◌then◌else◌,
}
use linux_assignment.Prelude.Sums.{assign}

pub record SignalNumbers : Type 0 where
  pub sigint : ℕ
  pub sigterm : ℕ
  pub sigquit : ℕ
  pub nsig : ℕ

abbrev pub signals_to_block : SignalNumbers → List ℕ
signals_to_block n = n.sigint ∷ n.sigterm ∷ n.sigquit ∷ []

abbrev pub Sigset : Type 0
Sigset = ℕ → Bool

abbrev pub sigemptyset : Sigset
sigemptyset sig = false

abbrev pub sigaddset : Sigset → ℕ → Sigset
sigaddset set sig = assign set sig true

-- the loop over `signals_to_block`
unfoldable pub add_all : List ℕ → Sigset → Sigset
add_all [] set = set
add_all (sig ∷ sigs) set = add_all sigs (sigaddset set sig)

-- sigprocmask with SIG_BLOCK and with SIG_UNBLOCK: the new mask
abbrev pub sig_block : Sigset → Sigset → Sigset
sig_block set mask sig = mask sig || set sig

abbrev pub sig_unblock : Sigset → Sigset → Sigset
sig_unblock set mask sig = mask sig && not (set sig)

module _ (n : SignalNumbers) where
  unfoldable pub block_signal : Sigset → Sigset
  block_signal mask = sig_block (add_all (signals_to_block n) sigemptyset) mask

  unfoldable pub unblock_signal : Sigset → Sigset
  unblock_signal mask = sig_unblock (add_all (signals_to_block n) sigemptyset) mask

  -- the loop of `printSignalMask` over `count` signals from `sig` on: those that it prints
  unfoldable pub members : (count sig : ℕ) → Sigset → List ℕ
  members zero sig mask = []
  members (suc count) sig mask =
      let rest = members count (sig + 1) mask in if mask sig then sig ∷ rest else rest

  -- `[]` is its message that no signals are blocked
  unfoldable pub print_signal_mask : Sigset → List ℕ
  print_signal_mask mask = members (n.nsig - 1) 1 mask

pub data Stage : Type 0 where
  blocking : Stage
  asleep : Stage
  printing : Stage
  asleep_again : Stage
  unblocking : Stage
  looping : Stage
  killed : (sig : ℕ) → Stage

pub record Process : Type 0 where
  pub stage : Stage
  pub mask : Sigset
  pub pending : Sigset
  pub printed : List ℕ

abbrev pub start : Sigset → Process
start mask = record { stage = blocking; mask = mask; pending = sigemptyset; printed = [] }

abbrev pub is_killed : Stage → Bool
is_killed (killed sig) = true
is_killed _ = false

-- whether `sig` is one of a list
abbrev pub is_in : ℕ → List ℕ → Bool
is_in sig [] = false
is_in sig (x ∷ xs) = (sig == x) || is_in sig xs

-- A signal is sent.
pub data Send (n : SignalNumbers) (s : Process) : Process → Type 0 where
  kept :
      (sig : ℕ)
      → is_in sig (signals_to_block n) ≡ true
      → is_killed s.stage ≡ false
      → s.mask sig ≡ true
      → Send n s (record s { pending = assign s.pending sig true })
  delivered :
      (sig : ℕ)
      → is_in sig (signals_to_block n) ≡ true
      → is_killed s.stage ≡ false
      → s.mask sig ≡ false
      → Send n s (record s { stage = killed sig })

-- The process goes on.
pub data Step (n : SignalNumbers) (s : Process) : Process → Type 0 where
  block : s.stage ≡ blocking → Step n s (record s { stage = asleep; mask = block_signal n s.mask })
  sleep_returns : s.stage ≡ asleep → Step n s (record s { stage = printing })
  print :
      s.stage ≡ printing
      → Step n s (record s { stage = asleep_again; printed = print_signal_mask n s.mask })
  sleep_returns_again : s.stage ≡ asleep_again → Step n s (record s { stage = unblocking })
  unblock :
      s.stage ≡ unblocking
      → ((sig : ℕ) → s.pending sig ≡ true → unblock_signal n s.mask sig ≡ true)
      → Step n s (record s { stage = looping; mask = unblock_signal n s.mask })
  unblock_delivers :
      (sig : ℕ)
      → s.stage ≡ unblocking
      → s.pending sig ≡ true
      → unblock_signal n s.mask sig ≡ false
      → Step n s (record s { stage = killed sig; mask = unblock_signal n s.mask })
  turn : s.stage ≡ looping → Step n s s

pub data Run (n : SignalNumbers) (s : Process) : Process → Type 0 where
  here : Run n s s
  then_step : {t v : Process} → Run n s t → Step n t v → Run n s v
  then_send : {t v : Process} → Run n s t → Send n t v → Run n s v
