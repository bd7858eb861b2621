-- ===== src/Signals/Masks/Held.antt =====
-- "asm_5 /Ex_2/ex_2.c": signals that come between blocking and unblocking wait, and end the program then.
use linux_assignment.Prelude.{ℕ, ◌≡◌, ◌≢◌, refl, Bool, true, false, arith}
use linux_assignment.Signals.Masks.{
  SignalNumbers, signals_to_block, Sigset, sigemptyset, block_signal, unblock_signal, is_in, Stage,
  asleep, printing, asleep_again, unblocking, looping, Process, start, Send, kept, delivered, Step,
  block, sleep_returns, print, sleep_returns_again, unblock, unblock_delivers, turn, Run, here,
  then_step, then_send,
}
use linux_assignment.Signals.Masks.Printed.{add_all-member}

-- between blocking and unblocking
abbrev pub in_window : Stage → Bool
in_window asleep = true
in_window printing = true
in_window asleep_again = true
in_window unblocking = true
in_window _ = false

pub blocked :
    (n : SignalNumbers) (mask : Sigset) (sig : ℕ)
    → is_in sig (signals_to_block n) ≡ true
    → block_signal n mask sig ≡ true
unfolding block_signal
blocked n mask sig h = ground (arith, add_all-member (signals_to_block n) sigemptyset sig)

pub unblocked :
    (n : SignalNumbers) (mask : Sigset) (sig : ℕ)
    → is_in sig (signals_to_block n) ≡ true
    → unblock_signal n mask sig ≡ false
unfolding unblock_signal
unblocked n mask sig h = ground (arith, add_all-member (signals_to_block n) sigemptyset sig)

module _ (n : SignalNumbers) where
  abbrev IsHeld : Process → Type 0
  IsHeld s =
      (sig : ℕ)
      → is_in sig (signals_to_block n) ≡ true
      → in_window s.stage ≡ true
      → s.mask sig ≡ true

  Step-IsHeld : {s t : Process} → Step n s t → IsHeld s → IsHeld t
  Step-IsHeld {s = s} (block at) h = λ sig three w. blocked n s.mask sig three
  Step-IsHeld (sleep_returns at) h = λ sig three w. h sig three (ground arith)
  Step-IsHeld (print at) h = λ sig three w. h sig three (ground arith)
  Step-IsHeld (sleep_returns_again at) h = λ sig three w. h sig three (ground arith)
  Step-IsHeld (unblock at none) h = λ sig three w. ground arith
  Step-IsHeld (unblock_delivers x at p u) h = λ sig three w. ground arith
  Step-IsHeld (turn at) h = h

  Run-IsHeld : {mask : Sigset} {s : Process} → Run n (start mask) s → IsHeld s
  Run-IsHeld here = λ sig three w. ground arith
  Run-IsHeld (then_step r st) = Step-IsHeld st (Run-IsHeld r)
  Run-IsHeld (then_send r (kept x three live m)) = Run-IsHeld r
  Run-IsHeld (then_send r (delivered x three live m)) = λ sig three' w. ground arith

  -- Between blocking and unblocking, none of the three signals that is sent ends the program.
  pub held :
      {mask : Sigset} {s t : Process}
      → Run n (start mask) s
      → in_window s.stage ≡ true
      → Send n s t
      → t.stage ≡ s.stage
  held r w (kept sig three live m) = refl
  held r w (delivered sig three live m) = ground (arith, Run-IsHeld r sig three)

  -- Whether `sig` waits, and main has not got past unblocking.
  record IsWaiting (sig : ℕ) (s : Process) : Type 0 where
    not_past : s.stage ≢ looping
    waits : s.pending sig ≡ true

  Step-IsWaiting :
      {s t : Process} {sig : ℕ}
      → is_in sig (signals_to_block n) ≡ true
      → Step n s t
      → IsWaiting sig s
      → IsWaiting sig t
  Step-IsWaiting three (block at) h = ground arith
  Step-IsWaiting three (sleep_returns at) h = ground arith
  Step-IsWaiting three (print at) h = ground arith
  Step-IsWaiting three (sleep_returns_again at) h = ground arith
  Step-IsWaiting {s = s} {sig = sig} three (unblock at none) h =
      ground (arith, none sig, unblocked n s.mask sig three)
  Step-IsWaiting three (unblock_delivers x at p u) h = ground arith
  Step-IsWaiting three (turn at) h = h

  -- From a state in which one of the three signals is pending and main is not in its last loop,
  -- main never gets to that loop, whatever else is sent.
  pub never_looping :
      {s t : Process} (sig : ℕ)
      → is_in sig (signals_to_block n) ≡ true
      → s.pending sig ≡ true
      → s.stage ≢ looping
      → Run n s t
      → t.stage ≢ looping
  never_looping {s} sig three waits early r = (after r).not_past
    where
      after : {t : Process} → Run n s t → IsWaiting sig t
      after here = record { not_past = early; waits = waits }
      after (then_step r st) = Step-IsWaiting three st (after r)
      after (then_send r (kept x three' live m)) = let w = after r in ground arith
      after (then_send r (delivered x three' live m)) = let w = after r in ground arith
