-- ===== src/Processes/Tree/Ends/Progress.antt =====
-- The steps that come next in asm_6/ex_4/ex_4.c.
use linux_assignment.Prelude.{ℕ, ◌<◌, ◌≡◌, ◌⊎◌, inl, inr, refl, arith, dec_lt}
use linux_assignment.Processes.Tree.{
  Program, Entry, unset, forked, reaped, Loop, forking, waiting, finished, Level, Step, fork,
  all_forked, waitpid, waitpid_gone, all_waited, process_steps, Child, sleeping, exited, exit,
  children_process, parent_process, Main,
}
use linux_assignment.Processes.Tree.Ends.{IsFit, IsOrderly, Main-IsOrderly, IsOrderlyParent}

-- what may be said of a process that goes on: it has exited, `Q`, or it has a step
abbrev pub GoesOn : {P : Type 0} → Program P → (P → Type 0) → P → Type 0
GoesOn {P} program Q p = program.HasExited p ⊎ (Q p ⊎ ((q : P) × program.IsStep p q))

-- Whether waitpid reads an array of process numbers where nothing has been written.
abbrev pub HasRead : {P : Type 0} → (P → Type 0) → Level P → Type 0
HasRead {P} Q s =
    ((i : ℕ) × (s.loop ≡ waiting i) × (s.entries i ≡ unset))
    ⊎ ((i : ℕ) × (p : P) × (s.entries i ≡ forked p) × Q p)

module _ {P : Type 0} (program : Program P) (IsGood Q : P → Type 0) (n : ℕ) (s : Level P) where
  abbrev CanMove : Type 0
  CanMove = (t : Level P) × Step program n s t

  -- the turn of the second loop for an entry
  wait_turn :
      (i : ℕ) (e : Entry P)
      → ((p : P) → IsGood p → GoesOn program Q p)
      → s.loop ≡ waiting i
      → i < n
      → s.entries i ≡ e
      → IsFit program IsGood e
      → HasRead Q s ⊎ CanMove
  wait_turn i unset h at lt eq f = inl (inl (i, at, eq))
  wait_turn i (reaped p) h at lt eq f = inr (_, waitpid_gone i p at lt eq)
  wait_turn i (forked p) h at lt eq f = elim (h p f) [
    | inl x ↦ inr (_, waitpid i p at lt eq x)
    | inr (inl q) ↦ inl (inr (i, p, eq, q))
    | inr (inr (q, st)) ↦ inr (_, process_steps i p q eq st)
  ]

  loop_turn :
      (l : Loop)
      → ((p : P) → IsGood p → GoesOn program Q p)
      → IsOrderly program IsGood n s
      → s.loop ≡ l
      → (s.loop ≡ finished) ⊎ (HasRead Q s ⊎ CanMove)
  loop_turn (forking i) h o at = elim (dec_lt i n) [
    | yes lt ↦ inr (inr (_, fork i at lt))
    | no ge ↦ inr (inr (_, all_forked i at (omega arith)))
  ]
  loop_turn (waiting i) h o at = elim (dec_lt i n) [
    | yes lt ↦ inr (wait_turn i (s.entries i) h at lt refl (o.fit i))
    | no ge ↦ inr (inr (_, all_waited i at (omega arith)))
  ]
  loop_turn finished h o at = inl at

child-GoesOn : (c : Child) → GoesOn children_process (λ c. ⊥) c
child-GoesOn sleeping = inr (inr (exited, exit))
child-GoesOn exited = inl refl

parent-GoesOn :
    (y : ℕ) (p : Level Child) → IsOrderlyParent y p → GoesOn (parent_process y) (HasRead (λ c. ⊥)) p
parent-GoesOn y p o =
    loop_turn children_process (λ c. Unit) (λ c. ⊥) y p p.loop (λ c u. child-GoesOn c) o refl

pub goes_on :
    {x y : ℕ} {s : Level (Level Child)}
    → Main x y s
    → (s.loop ≡ finished)
      ⊎ (HasRead (HasRead (λ c. ⊥)) s ⊎ ((t : Level (Level Child)) × Step (parent_process y) x s t))
goes_on {x} {y} {s} r =
    loop_turn (parent_process y) (IsOrderlyParent y) (HasRead (λ c. ⊥)) x s s.loop (parent-GoesOn y)
      (Main-IsOrderly r) refl
