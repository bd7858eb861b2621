-- ===== src/Signals/Family/Stopped.antt =====
-- Which children of asm_5 /Ex_5/ex_5.c exit, and with what status.
use linux_assignment.Prelude.{ℕ, ◌+◌, ◌≡◌, ◌⊎◌, inl, inr, refl, subst, List, [], ◌∷◌, arith}
use linux_assignment.Prelude.Sums.{assign, assign-All}
use linux_assignment.Signals.Dispatch.{Action, sleep, raise_stop, raise_usr1, exit, child}
use linux_assignment.Signals.Family.{
  pausing, Child, absent, running, stopped, exited, continued, act, System, start, Step, install,
  install_fails, all_installed, fork, fork_fails, all_forked, sleep_returns, kill, child_acts,
  Steps, here, next,
}

-- what may be left to do for child `i` while it runs, and while it is stopped
abbrev IsRest : ℕ → List Action → Type 0
IsRest i actions =
    (actions ≡ child i)
    ⊎ ((actions ≡ raise_stop ∷ raise_usr1 ∷ exit (10 + i) ∷ []) × (i ≡ 0)
        ⊎ ((actions ≡ raise_usr1 ∷ exit (10 + i) ∷ []) ⊎ (actions ≡ exit (10 + i) ∷ [])))

abbrev pub IsRight : ℕ → Child → Type 0
IsRight i absent = Unit {0}
IsRight i (running actions) = IsRest i actions
IsRight i (stopped actions) = (i ≡ 0) × (actions ≡ raise_usr1 ∷ exit (10 + i) ∷ [])
IsRight i (exited status) = status ≡ 10 + i

act-IsRight :
    (i : ℕ) (action : Action) (actions : List Action)
    → IsRest i (action ∷ actions)
    → IsRight i (act action actions)
unfolding child
act-IsRight i (sleep seconds) actions h = ground arith
act-IsRight i raise_stop actions h = ground arith
act-IsRight i raise_usr1 actions h = ground arith
act-IsRight i (exit status) actions h = ground arith

assign-IsRight :
    (children : ℕ → Child) (i : ℕ) (c : Child)
    → ((j : ℕ) → IsRight j (children j))
    → IsRight i c
    → (j : ℕ) → IsRight j (assign children i c j)
assign-IsRight children i c all right j =
    assign-All (IsRight j) children i c j (λ e. subst (λ k. IsRight k c) e right) (λ ne. all j)

continued-IsRight : (i : ℕ) (c : Child) → IsRight i c → IsRight i (continued c)
continued-IsRight i absent h = tt
continued-IsRight i (running actions) h = h
continued-IsRight i (stopped actions) h = inr (inr (inl h.1))
continued-IsRight i (exited status) h = h

-- In every reachable state of the family a child that is stopped is the first one, with SIGUSR1 and
-- the exit left to do; a child that runs is at a point of its own list of actions; and a child that
-- has exited has exited with 10 plus its number.
pub family_kept : {s : System} → Steps start s → (i : ℕ) → IsRight i (s.children i)
family_kept here i = tt
family_kept (next r (install k at lt)) i = family_kept r i
family_kept (next r (install_fails k at lt)) i = family_kept r i
family_kept (next r (all_installed k at le)) i = family_kept r i
family_kept (next {t} r (fork k at lt)) i =
    assign-IsRight t.children k (running (child k)) (family_kept r) (inl refl) i
family_kept (next r (fork_fails k at lt)) i = family_kept r i
family_kept (next r (all_forked k at le)) i = family_kept r i
family_kept (next r (sleep_returns at)) i = family_kept r i
family_kept (next {t} r (kill at)) i =
    assign-IsRight t.children 0 (continued (t.children 0)) (family_kept r)
      (continued-IsRight 0 (t.children 0) (family_kept r 0)) i
family_kept (next {t} r (child_acts k action actions at)) i =
    assign-IsRight t.children k (act action actions) (family_kept r)
      (act-IsRight k action actions (subst (IsRight k) at (family_kept r k))) i

Step-stopped :
    {s t : System} {actions : List Action}
    → Step s t
    → s.parent ≡ pausing
    → s.children 0 ≡ stopped actions
    → (t.parent ≡ pausing) × (t.children 0 ≡ stopped actions)
Step-stopped (install k at lt) p c = ground arith
Step-stopped (install_fails k at lt) p c = ground arith
Step-stopped (all_installed k at le) p c = ground arith
Step-stopped (fork k at lt) p c = ground arith
Step-stopped (fork_fails k at lt) p c = ground arith
Step-stopped (all_forked k at le) p c = ground arith
Step-stopped (sleep_returns at) p c = ground arith
Step-stopped (kill at) p c = ground arith
Step-stopped (child_acts k action rest at) p c = ground arith

-- Once the parent has sent its SIGCONT, a first child that is stopped then stays stopped whatever
-- happens: it never exits.
pub stays_stopped :
    {s t : System} {actions : List Action}
    → s.parent ≡ pausing
    → s.children 0 ≡ stopped actions
    → Steps s t
    → (t.parent ≡ pausing) × (t.children 0 ≡ stopped actions)
stays_stopped p c here = (p, c)
stays_stopped p c (next r st) = let (p', c') = stays_stopped p c r in Step-stopped st p' c'
