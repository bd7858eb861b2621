-- ===== src/Signals/Interrupted/Messages.antt =====
-- What asm_6/ex_3/ex_3.c has printed.
use linux_assignment.Prelude.{
  ℕ, suc, ◌≤◌, ◌<◌, ◌≡◌, ◌⊎◌, inl, inr, List, [], ◌∷◌, ◌++◌, refl, arith, ap, ap₂, sym, ◌∙◌, subst,
  zero,
}
use linux_assignment.Signals.Interrupted.{
  rounds, Stage, installing, first_line, head, asleep, ending, returns, exited, killed, Message,
  starting, working, interrupted, completed, System, start, Handles, Step, installs, starts, works,
  sleep_returns, completes, interrupts, sigint_kills, Steps, here, next,
}

-- the first line, and the lines of the first `k` rounds
abbrev pub lines : ℕ → List Message
lines zero = starting ∷ []
lines (suc k) = lines k ++ working (suc k) ∷ []

-- what has been printed at each stage; `main` exits at its end, or at a SIGINT
abbrev pub AreLines : Stage → List Message → Type 0
AreLines installing ms = ms ≡ []
AreLines first_line ms = ms ≡ []
AreLines (head i) ms = (k : ℕ) × (i ≡ suc k) × (k ≤ rounds) × (ms ≡ lines k)
AreLines (asleep i) ms = (i ≤ rounds) × (ms ≡ lines i)
AreLines ending ms = ms ≡ lines rounds ++ completed ∷ []
AreLines killed ms = ms ≡ []
AreLines (exited status) ms =
    (status ≡ 0)
    × ((ms ≡ lines rounds ++ completed ∷ [])
        ⊎ ((ms ≡ interrupted ∷ [])
            ⊎ (((k : ℕ) × (k ≤ rounds) × (ms ≡ lines k ++ interrupted ∷ []))
                ⊎ (ms ≡ (lines rounds ++ completed ∷ []) ++ interrupted ∷ []))))

pub at_stage :
    (s : System) {st : Stage} → s.stage ≡ st → AreLines s.stage s.printed → AreLines st s.printed
at_stage s at h = subst (λ x. AreLines x s.printed) at h

interrupted_at :
    (st : Stage) (ms : List Message)
    → Handles st
    → AreLines st ms
    → AreLines (exited 0) (ms ++ interrupted ∷ [])
interrupted_at first_line ms _ h = (refl, inr (inl (ap (λ ms. ms ++ interrupted ∷ []) h)))
interrupted_at (head i) ms _ (k, e, le, h) =
    (refl, inr (inr (inl (k, le, ap (λ ms. ms ++ interrupted ∷ []) h))))
interrupted_at (asleep i) ms _ (le, h) =
    (refl, inr (inr (inl (i, le, ap (λ ms. ms ++ interrupted ∷ []) h))))
interrupted_at ending ms _ h = (refl, inr (inr (inr (ap (λ ms. ms ++ interrupted ∷ []) h))))
interrupted_at installing ms h _ = elim h [ ]
interrupted_at (exited status) ms h _ = elim h [ ]
interrupted_at killed ms h _ = elim h [ ]

works_at :
    (i : ℕ) (ms : List Message)
    → i ≤ rounds
    → AreLines (head i) ms
    → AreLines (asleep i) (ms ++ working i ∷ [])
works_at i ms le (k, e, _, h) = (le, ap₂ (λ ms j. ms ++ working j ∷ []) h e ∙ sym (ap lines e))

completed_at :
    (i : ℕ) (ms : List Message)
    → rounds < i
    → AreLines (head i) ms
    → AreLines ending (ms ++ completed ∷ [])
completed_at i ms lt (k, e, le, h) =
    ap (λ ms. ms ++ completed ∷ []) (h ∙ ap lines {x = k} {y = rounds} (omega arith))

Step-AreLines : {s t : System} → Step s t → AreLines s.stage s.printed → AreLines t.stage t.printed
Step-AreLines {s} (installs at) h = at_stage s at h
Step-AreLines {s} (starts at) h =
    (0, omega arith, omega arith, ap (λ ms. ms ++ starting ∷ []) (at_stage s at h))
Step-AreLines {s} (works i at le) h = works_at i s.printed le (at_stage s at h)
Step-AreLines {s} (sleep_returns i at) h = let (le, e) = at_stage s at h in (i, omega arith, le, e)
Step-AreLines {s} (completes i at lt) h = completed_at i s.printed lt (at_stage s at h)
Step-AreLines {s} (returns at) h = (refl, inl (at_stage s at h))
Step-AreLines {s} (interrupts at) h = interrupted_at s.stage s.printed at h
Step-AreLines {s} (sigint_kills at) h = at_stage s at h

-- What has been printed in every state that is reached. In the loop: the first line and one for each
-- round begun, in order. Behind the last message: these for all thirty rounds, and that message. When
-- main has exited, which is with 0: the same; or the line of SIGINT, alone, or behind the lines of some
-- rounds, or behind the last message. Nothing before the first line, or if the process was killed.
pub messages_lem : {s : System} → Steps start s → AreLines s.stage s.printed
messages_lem here = refl
messages_lem (next r st) = Step-AreLines st (messages_lem r)
