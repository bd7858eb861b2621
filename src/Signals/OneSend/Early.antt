-- ===== src/Signals/OneSend/Early.antt =====
-- "asm_5 /Ex_4/ex_4_expand.c": what becomes of the signal, by when it is sent.
use linux_assignment.Prelude.{◌≡◌, ◌⊎◌, Bool, true, false, arith}
use linux_assignment.Signals.OneSend.{
  StageA, sending, asleep_again, waiting, returned, StageB, asleep_blocked, unblocking, exiting,
  exited, System, start, receive, Step, fork, fork_fails, a_wakes, kill, a_wakes_again,
  wait_returns, wait_returns_killed, b_wakes, signal, block, b_wakes_again, unblock, exit, Steps,
  here, next,
}

-- between blocking and unblocking
abbrev pub in_window : StageB → Bool
in_window asleep_blocked = true
in_window unblocking = true
in_window _ = false

abbrev has_sent : StageA → Bool
has_sent asleep_again = true
has_sent waiting = true
has_sent returned = true
has_sent _ = false

abbrev has_unblocked : StageB → Bool
has_unblocked exiting = true
has_unblocked exited = true
has_unblocked _ = false

-- After a signal that was sent in the window: it waits there, and was handled once behind it.
record IsReceived (s : System) : Type 0 where
  sent : has_sent s.a ≡ true
  waits : in_window s.b ≡ true → (s.pending ≡ true) × (s.handled ≡ 0)
  once : has_unblocked s.b ≡ true → s.handled ≡ 1
  past : (in_window s.b ≡ true) ⊎ (has_unblocked s.b ≡ true)
  ends : s.a ≡ returned → s.b ≡ exited

Step-IsReceived : {s t : System} → Step s t → IsReceived s → IsReceived t
Step-IsReceived (fork at) r = ground arith
Step-IsReceived (fork_fails at) r = ground arith
Step-IsReceived (a_wakes at) r = ground arith
Step-IsReceived (kill at) r = ground arith
Step-IsReceived (a_wakes_again at) r = ground arith
Step-IsReceived (wait_returns at e) r = ground arith
Step-IsReceived (wait_returns_killed at e) r = ground arith
Step-IsReceived (b_wakes at) r = ground arith
Step-IsReceived (signal at) r = ground arith
Step-IsReceived (block at) r = ground arith
Step-IsReceived (b_wakes_again at) r = ground arith
Step-IsReceived (unblock at) r = ground arith
Step-IsReceived (exit at) r = ground arith

-- Nothing has been handled or is pending before A sends.
record IsQuiet (s : System) : Type 0 where
  silent : has_sent s.a ≡ false → (s.handled ≡ 0) × (s.pending ≡ false)

Step-IsQuiet : {s t : System} → Step s t → IsQuiet s → IsQuiet t
Step-IsQuiet (fork at) q = ground arith
Step-IsQuiet (fork_fails at) q = ground arith
Step-IsQuiet (a_wakes at) q = ground arith
Step-IsQuiet (kill at) q = ground arith
Step-IsQuiet (a_wakes_again at) q = ground arith
Step-IsQuiet (wait_returns at e) q = ground arith
Step-IsQuiet (wait_returns_killed at e) q = ground arith
Step-IsQuiet (b_wakes at) q = ground arith
Step-IsQuiet (signal at) q = ground arith
Step-IsQuiet (block at) q = ground arith
Step-IsQuiet (b_wakes_again at) q = ground arith
Step-IsQuiet (unblock at) q = ground arith
Step-IsQuiet (exit at) q = ground arith

Steps-IsQuiet : {s : System} → Steps start s → IsQuiet s
Steps-IsQuiet here = ground arith
Steps-IsQuiet (next r st) = Step-IsQuiet st (Steps-IsQuiet r)

Steps-IsReceived : {s t : System} → IsReceived s → Steps s t → IsReceived t
Steps-IsReceived m here = m
Steps-IsReceived m (next r st) = Step-IsReceived st (Steps-IsReceived m r)

-- A signal that is sent while process B blocks it is handled exactly once before B exits, and B is not
-- killed.
pub handled_once :
    {s t : System}
    → Steps start s
    → s.a ≡ sending
    → in_window s.b ≡ true
    → Steps (record (receive s) { a = asleep_again }) t
    → t.a ≡ returned
    → (t.handled ≡ 1) × (t.b ≡ exited)
handled_once {s} r at w after end =
    let q = Steps-IsQuiet r in
    let sent_now : IsReceived (record (receive s) { a = asleep_again }) = ground (arith, q) in
    ground (arith, Steps-IsReceived sent_now after)
