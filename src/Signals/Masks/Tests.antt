-- ===== src/Signals/Masks/Tests.antt =====
-- The theorems on "asm_5 /Ex_2/ex_2.c" with the signal numbers of Linux, and a smaller NSIG.
use linux_assignment.Prelude.{◌≢◌, refl}
use linux_assignment.Signals.Masks.{
  SignalNumbers, sigemptyset, looping, Process, start, kept, block, sleep_returns, print,
  sleep_returns_again, unblock_delivers, Run, here, then_step, then_send,
}
use linux_assignment.Signals.Masks.Held.{blocked, unblocked, never_looping}

abbrev numbers : SignalNumbers
numbers = record { sigint = 2; sigterm = 15; sigquit = 3; nsig = 20 }

abbrev blocked_run : (s : Process) × Run numbers (start sigemptyset) s
blocked_run = (_, then_step here (block refl))

-- SIGINT is sent while it is blocked.
abbrev sent_run : (s : Process) × Run numbers (start sigemptyset) s
sent_run = (_, then_send blocked_run.1 (kept 2 refl refl (blocked numbers sigemptyset 2 refl)))

abbrev ended_run : (s : Process) × Run numbers sent_run.0 s
ended_run = (
  _,
  then_step
      (then_step (then_step (then_step here (sleep_returns refl)) (print refl))
        (sleep_returns_again refl))
      (unblock_delivers 2 refl refl (unblocked numbers _ 2 refl)),
)

never_looping_example : ended_run.0.stage ≢ looping
never_looping_example = never_looping numbers 2 refl refl (λ e. cc) ended_run.1
