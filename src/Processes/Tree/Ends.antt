-- ===== src/Processes/Tree/Ends.antt =====
-- asm_6/ex_4/ex_4.c: when a parent, or main, prints its last message, what it has forked has ended.
pub mod Progress
pub mod Bound
use linux_assignment.Prelude.{
  ℕ, ◌+◌, ◌≤◌, ◌<◌, ◌≡◌, ◌≢◌, ◌⊎◌, inl, inr, refl, ap, ◌∙◌, sym, subst, arith, ℕ_discrete,
}
use linux_assignment.Prelude.Sums.{assign, assign-All}
use linux_assignment.Processes.Tree.{
  Program, Entry, unset, forked, reaped, Loop, forking, waiting, finished, Level, start, Step, fork,
  fork_fails, all_forked, waitpid, waitpid_unset, waitpid_unset_reaps, waitpid_gone, all_waited,
  process_steps, Steps, here, next, Child, sleeping, exited, ChildStep, exit, children_process,
  parent_process, Main,
}

-- How many entries the second loop has passed.
abbrev pub passed : ℕ → Loop → ℕ
passed n (waiting i) = i
passed n finished = n
passed n _ = 0

module _ {P : Type 0} (program : Program P) (IsGood : P → Type 0) where
  -- no process that the entry names is left
  abbrev pub IsClosed : Entry P → Type 0
  IsClosed (forked p) = ⊥
  IsClosed _ = Unit

  abbrev pub IsFit : Entry P → Type 0
  IsFit unset = Unit
  IsFit (forked p) = IsGood p
  IsFit (reaped p) = program.HasExited p × IsGood p

  pub record IsOrderly (n : ℕ) (s : Level P) : Type 0 where
    pub done : (i : ℕ) → i < passed n s.loop → IsClosed (s.entries i)
    pub fit : (i : ℕ) → IsFit (s.entries i)

  -- a turn of the second loop that leaves the entries as they are
  turn-IsOrderly :
      {n : ℕ} {s : Level P} (i : ℕ)
      → s.loop ≡ waiting i
      → IsClosed (s.entries i)
      → IsOrderly n s
      → IsOrderly n (record s { loop = waiting (i + 1) })
  turn-IsOrderly {n} {s} i at closed o = record {
    done = λ j l. elim (ℕ_discrete i j) [
      | yes eq ↦ subst (λ k. IsClosed (s.entries k)) eq closed
      | no ne ↦ o.done j (ground arith)
    ];
    fit = o.fit;
  }

  -- a turn that reaps the process of an entry
  reap-IsOrderly :
      {n : ℕ} {s : Level P} (i k : ℕ) (p : P)
      → s.loop ≡ waiting i
      → s.entries k ≡ forked p
      → program.HasExited p
      → IsOrderly n s
      → IsOrderly n (record s { entries = assign s.entries k (reaped p) })
  reap-IsOrderly {n} {s} i k p at e x o = record {
    done = λ j l. assign-All IsClosed s.entries k _ j (λ eq. tt) (λ ne. o.done j l);
    fit =
        λ j. assign-All IsFit s.entries k _ j (λ eq. (x, subst IsFit e (o.fit k))) (λ ne. o.fit j);
  }

  pub Step-IsOrderly :
      {n : ℕ} {s t : Level P}
      → IsGood program.first
      → ((p q : P) → program.IsStep p q → IsGood p → IsGood q)
      → Step program n s t
      → IsOrderly n s
      → IsOrderly n t
  Step-IsOrderly {s = s} g keep (fork i at lt) o = record {
    done = λ j l. absurd (omega (arith, l));
    fit = λ j. assign-All IsFit s.entries i _ j (λ eq. g) (λ ne. o.fit j);
  }
  Step-IsOrderly g keep (fork_fails i at lt) o = record {
    done = λ j l. absurd (omega (arith, l));
    fit = o.fit;
  }
  Step-IsOrderly g keep (all_forked i at le) o = record {
    done = λ j l. absurd (omega (arith, l));
    fit = o.fit;
  }
  Step-IsOrderly {n} {s = s} g keep (waitpid i p at lt e x) o =
      turn-IsOrderly {s = record s { entries = assign s.entries i (reaped p) }} i at
        (assign-All IsClosed s.entries i _ i (λ eq. tt) (λ ne. absurd (ne refl)))
        (reap-IsOrderly i i p at e x o)
  Step-IsOrderly g keep (waitpid_unset i at lt e) o =
      turn-IsOrderly i at (subst IsClosed (sym e) tt) o
  Step-IsOrderly {s = s} g keep (waitpid_unset_reaps i k p at lt e e' x) o =
      turn-IsOrderly {s = record s { entries = assign s.entries k (reaped p) }} i at
        (assign-All IsClosed s.entries k _ i (λ eq. tt) (λ ne. subst IsClosed (sym e) tt))
        (reap-IsOrderly i k p at e' x o)
  Step-IsOrderly g keep (waitpid_gone i p at lt e) o =
      turn-IsOrderly i at (subst IsClosed (sym e) tt) o
  Step-IsOrderly g keep (all_waited i at le) o = record {
    done = λ j l. o.done j (ground arith);
    fit = o.fit;
  }
  Step-IsOrderly {s = s} g keep (process_steps i p q e st) o = record {
    done = λ j l.
        assign-All IsClosed s.entries i _ j
          (λ eq. absurd (subst IsClosed e (o.done i (omega (arith, l, eq))))) (λ ne. o.done j l);
    fit = λ j.
        assign-All IsFit s.entries i _ j (λ eq. keep p q st (subst IsFit e (o.fit i)))
          (λ ne. o.fit j);
  }

  pub Steps-IsOrderly :
      {n : ℕ} {s : Level P}
      → IsGood program.first
      → ((p q : P) → program.IsStep p q → IsGood p → IsGood q)
      → Steps program n start s
      → IsOrderly n s
  Steps-IsOrderly g keep here = record { done = λ i l. absurd (omega (arith, l)); fit = λ i. tt }
  Steps-IsOrderly g keep (next r st) = Step-IsOrderly g keep st (Steps-IsOrderly g keep r)

  closed_entry :
      (e : Entry P)
      → IsClosed e
      → IsFit e
      → (e ≡ unset) ⊎ ((p : P) × (e ≡ reaped p) × program.HasExited p × IsGood p)
  closed_entry unset c f = inl refl
  closed_entry (forked q) c f = elim c [ ]
  closed_entry (reaped p) c (x, g) = inr (p, refl, x, g)

  pub finished_entry :
      {n : ℕ} {s : Level P}
      → IsOrderly n s
      → s.loop ≡ finished
      → (i : ℕ) → i < n
      → (s.entries i ≡ unset)
        ⊎ ((p : P) × (s.entries i ≡ reaped p) × program.HasExited p × IsGood p)
  finished_entry {n} {s} o end i lt =
      closed_entry (s.entries i) (o.done i (ground (arith, lt))) (o.fit i)

-- A parent that runs in `main` is in order.
abbrev pub IsOrderlyParent : ℕ → Level Child → Type 0
IsOrderlyParent y = IsOrderly children_process (λ c. Unit) y

pub Main-IsOrderly :
    {x y : ℕ} {s : Level (Level Child)}
    → Main x y s
    → IsOrderly (parent_process y) (IsOrderlyParent y) x s
Main-IsOrderly {y = y} r =
    Steps-IsOrderly (parent_process y) (IsOrderlyParent y)
      (record { done = λ i l. absurd (omega (arith, l)); fit = λ i. tt })
      (λ p q st. Step-IsOrderly children_process (λ c. Unit) tt (λ c d e f. tt) st) r

-- What is left of the child of an entry: it was never forked, or it has exited and was reaped.
abbrev pub IsEnded : Entry Child → Type 0
IsEnded e = (e ≡ unset) ⊎ (e ≡ reaped exited)

-- When main has printed its last message, whichever forks failed, each of the x entries is unset, or
-- it names a parent that has printed its own last message and was reaped; each of the y entries of
-- such a parent is unset, or it names a child that has exited and was reaped. No process that was
-- forked is still running or unreaped.
pub all_terminated :
    {x y : ℕ} {s : Level (Level Child)} (i j : ℕ)
    → Main x y s
    → s.loop ≡ finished
    → i < x
    → j < y
    → (s.entries i ≡ unset)
      ⊎ ((parent : Level Child) × (s.entries i ≡ reaped parent)
          × (parent.loop ≡ finished)
          × IsEnded (parent.entries j))
all_terminated {x} {y} {s} i j r end lt lt' =
    elim (finished_entry _ _ (Main-IsOrderly r) end i lt) [
      | inl none ↦ inl none
      | inr (parent, named, ended, o) ↦ inr (
        parent,
        named,
        ended,
        elim (finished_entry _ _ o ended j lt') [
          | inl none ↦ inl none
          | inr (child, named', exits, g) ↦ inr (named' ∙ ap reaped exits)
        ],
      )
    ]
