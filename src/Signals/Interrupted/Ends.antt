-- ===== src/Signals/Interrupted/Ends.antt =====
-- The end of asm_6/ex_3/ex_3.c.
use linux_assignment.Prelude.{
  ℕ, ◌+◌, ◌-◌, ◌≤◌, ◌<◌, ◌*◌, ◌≡◌, ◌⊎◌, inl, inr, List, refl, arith, ◌∙◌, ap, dec_le,
}
use linux_assignment.Signals.Interrupted.{
  rounds, Stage, installing, first_line, head, asleep, ending, returns, exited, killed, Message,
  System, start, Handles, Step, installs, starts, works, sleep_returns, completes, interrupts,
  sigint_kills, Steps, here, next,
}
use linux_assignment.Signals.Interrupted.Messages.{AreLines, at_stage, messages_lem}

-- how many steps have been made, and how many are left at most
abbrev pub number : {s t : System} → Steps s t → ℕ
number here = 0
number (next r st) = number r + 1

abbrev left_at : Stage → ℕ
left_at installing = 64
left_at first_line = 63
left_at (head i) = 64 - 2 * i
left_at (asleep i) = 63 - 2 * i
left_at ending = 1
left_at _ = 0

Handles-left_at : (st : Stage) (ms : List Message) → Handles st → AreLines st ms → 0 < left_at st
Handles-left_at first_line ms h o = omega arith
Handles-left_at (head i) ms h (k, e, le, f) = omega arith
Handles-left_at (asleep i) ms h (le, f) = omega arith
Handles-left_at ending ms h e = omega arith
Handles-left_at installing ms h _ = elim h [ ]
Handles-left_at (exited status) ms h _ = elim h [ ]
Handles-left_at killed ms h _ = elim h [ ]

Step-left_at :
    {s t : System} → Step s t → AreLines s.stage s.printed → left_at t.stage < left_at s.stage
Step-left_at {s} (installs at) h = omega (arith, ap left_at at)
Step-left_at {s} (starts at) h = omega (arith, ap left_at at)
Step-left_at {s} (works i at le) h = omega (arith, ap left_at at)
Step-left_at {s} (sleep_returns i at) h = let o = at_stage s at h in omega (arith, ap left_at at)
Step-left_at {s} (completes i at lt) h =
    let (k, e, le, f) = at_stage s at h in omega (arith, ap left_at at)
Step-left_at {s} (returns at) h = omega (arith, ap left_at at)
Step-left_at {s} (interrupts at) h = Handles-left_at s.stage s.printed at h
Step-left_at {s} (sigint_kills at) h = omega (arith, ap left_at at)

number_lem : {s : System} (r : Steps start s) → number r + left_at s.stage ≤ 64
number_lem here = omega arith
number_lem (next r st) = omega (arith, number_lem r, Step-left_at st (messages_lem r))

pub CanStep : System → Type 0
CanStep s = (t : System) × Step s t

goes_on :
    (s : System) (st : Stage)
    → s.stage ≡ st
    → AreLines st s.printed
    → CanStep s ⊎ ((s.stage ≡ exited 0) ⊎ (s.stage ≡ killed))
unfolding CanStep
goes_on s installing at h = inl (_, installs at)
goes_on s first_line at h = inl (_, starts at)
goes_on s (head i) at h = elim (dec_le i rounds) [
  | yes le ↦ inl (_, works i at le)
  | no gt ↦ inl (_, completes i at (omega arith))
]
goes_on s (asleep i) at h = inl (_, sleep_returns i at)
goes_on s ending at h = inl (_, returns at)
goes_on s (exited status) at h = inr (inl (at ∙ ap exited (h.0)))
goes_on s killed at h = inr (inr at)

-- A run makes at most 64 steps, whenever SIGINT comes, and it goes on until main has exited with 0
-- or has been killed.
pub ends :
    {s : System} (r : Steps start s)
    → (number r ≤ 64) × (CanStep s ⊎ ((s.stage ≡ exited 0) ⊎ (s.stage ≡ killed)))
ends {s} r = (omega (arith, number_lem r), goes_on s s.stage refl (messages_lem r))
