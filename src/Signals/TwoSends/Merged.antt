-- ===== src/Signals/TwoSends/Merged.antt =====
-- "asm_5 /Ex_4/ex_4.c": how often process A handles the signal that process B sends twice.
use linux_assignment.Prelude.{ℕ, ◌≤◌, ◌≡◌, Bool, true, false, ◌||◌, arith}
use linux_assignment.Signals.TwoSends.{
  StageA, forking, asleep, unblocking, asleep_again, waiting, returned, StageB, absent,
  asleep_second, sending_second, exiting, exited, System, start, Step, signal, block, fork,
  fork_fails, sleep_returns, unblocks, sleep_returns_again, wait_returns, b_wakes, sends_first,
  b_wakes_again, sends_second, b_exits, Steps, here, next,
}

-- how often B has sent the signal
abbrev pub sent : StageB → ℕ
sent asleep_second = 1
sent sending_second = 1
sent exiting = 2
sent exited = 2
sent _ = 0

-- whether A is between blocking and unblocking
abbrev pub in_window : StageA → Bool
in_window forking = true
in_window asleep = true
in_window unblocking = true
in_window _ = false

abbrev has_unblocked : StageA → Bool
has_unblocked asleep_again = true
has_unblocked waiting = true
has_unblocked returned = true
has_unblocked _ = false

record IsCounted (s : System) : Type 0 where
  window :
      in_window s.a ≡ true
      → (s.blocked ≡ true)
        × (s.handled ≡ 0)
        × (s.pending ≡ true → 1 ≤ sent s.b)
        × (1 ≤ sent s.b → s.pending ≡ true)
  after :
      has_unblocked s.a ≡ true
      → (s.blocked ≡ false) × (s.handled ≤ sent s.b) × (1 ≤ sent s.b → 1 ≤ s.handled)
  before :
      in_window s.a ≡ false
      → has_unblocked s.a ≡ false
      → (sent s.b ≡ 0) × (s.b ≡ absent) × (s.pending ≡ false) × (s.handled ≡ 0)
  forks : s.a ≡ forking → s.b ≡ absent
  ends : s.a ≡ returned → s.b ≡ exited

Step-IsCounted : {s t : System} → Step s t → IsCounted s → IsCounted t
Step-IsCounted (signal at) c = ground arith
Step-IsCounted (block at) c = ground arith
Step-IsCounted (fork at) c = ground arith
Step-IsCounted (fork_fails at) c = ground arith
Step-IsCounted (sleep_returns at) c = ground arith
Step-IsCounted (unblocks at) c = ground arith
Step-IsCounted (sleep_returns_again at) c = ground arith
Step-IsCounted (wait_returns at e) c = ground arith
Step-IsCounted (b_wakes at) c = ground arith
Step-IsCounted (sends_first at) c = ground arith
Step-IsCounted (b_wakes_again at) c = ground arith
Step-IsCounted (sends_second at) c = ground arith
Step-IsCounted (b_exits at) c = ground arith

Steps-IsCounted : {s : System} → Steps start s → IsCounted s
Steps-IsCounted here = ground arith
Steps-IsCounted (next r st) = Step-IsCounted st (Steps-IsCounted r)

-- When main of process A has returned, its handler has run once or twice.
pub handled_once_or_twice :
    {s : System} → Steps start s → s.a ≡ returned → (1 ≤ s.handled) × (s.handled ≤ 2)
handled_once_or_twice r end = ground (arith, Steps-IsCounted r)

record IsMerged (s : System) : Type 0 where
  both : sent s.b ≡ 2
  waits : in_window s.a ≡ true → (s.handled ≡ 0) × (s.pending ≡ true)
  once : in_window s.a ≡ false → s.handled ≡ 1
  past : (in_window s.a || has_unblocked s.a) ≡ true
  forked : s.a ≡ forking → s.b ≡ absent

Step-IsMerged : {s t : System} → Step s t → IsMerged s → IsMerged t
Step-IsMerged (signal at) c = ground arith
Step-IsMerged (block at) c = ground arith
Step-IsMerged (fork at) c = ground arith
Step-IsMerged (fork_fails at) c = ground arith
Step-IsMerged (sleep_returns at) c = ground arith
Step-IsMerged (unblocks at) c = ground arith
Step-IsMerged (sleep_returns_again at) c = ground arith
Step-IsMerged (wait_returns at e) c = ground arith
Step-IsMerged (b_wakes at) c = ground arith
Step-IsMerged (sends_first at) c = ground arith
Step-IsMerged (b_wakes_again at) c = ground arith
Step-IsMerged (sends_second at) c = ground arith
Step-IsMerged (b_exits at) c = ground arith

Steps-IsMerged : {s t : System} → IsMerged s → Steps s t → IsMerged t
Steps-IsMerged m here = m
Steps-IsMerged m (next r st) = Step-IsMerged st (Steps-IsMerged m r)

-- When process B has sent both signals before process A unblocks them, the handler runs once in all:
-- when main of process A returns, it has run exactly once.
pub merged :
    {s t : System}
    → Steps start s
    → in_window s.a ≡ true
    → sent s.b ≡ 2
    → Steps s t
    → t.a ≡ returned
    → t.handled ≡ 1
merged {s} r w both r' end =
    let c = Steps-IsCounted r in
    let m : IsMerged s = ground (arith, c) in ground (arith, Steps-IsMerged m r')
