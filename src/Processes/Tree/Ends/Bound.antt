-- ===== src/Processes/Tree/Ends/Bound.antt =====
-- How many steps a run of asm_6/ex_4/ex_4.c makes at most.
use linux_assignment.Prelude.{ℕ, ◌+◌, ◌-◌, ◌*◌, ◌≤◌, ◌<◌, ◌≡◌, refl, ap, subst, arith}
use linux_assignment.Prelude.Sums.{assign, assign-All, sum, sum-assign, sum-const}
use linux_assignment.Processes.Tree.{
  Program, Entry, unset, forked, reaped, Loop, forking, waiting, Level, start, Step, fork,
  fork_fails, all_forked, waitpid, waitpid_unset, waitpid_unset_reaps, waitpid_gone, all_waited,
  process_steps, Steps, here, next, Child, sleeping, exited, ChildStep, exit, children_process,
  parent_process, Main,
}

-- how many steps have been made
abbrev pub number :
    {P : Type 0} {program : Program P} {n : ℕ} {s t : Level P} → Steps program n s t → ℕ
number here = 0
number (next r st) = number r + 1

module _ {P : Type 0} (program : Program P) (IsGood : P → Type 0) (n : ℕ) where
  -- nothing stands behind the `n` entries
  abbrev IsTameEntry : ℕ → Entry P → Type 0
  IsTameEntry i (forked p) = (i < n) × IsGood p
  IsTameEntry i _ = Unit

  pub IsTame : Level P → Type 0
  IsTame s = (i : ℕ) → IsTameEntry i (s.entries i)

  Step-IsTame :
      {s t : Level P}
      → IsGood program.first
      → ((p q : P) → program.IsStep p q → IsGood p → IsGood q)
      → Step program n s t
      → IsTame s
      → IsTame t
  unfolding IsTame
  Step-IsTame {s} g keep (fork i at lt) o =
      λ j. assign-All (IsTameEntry j) s.entries i _ j (λ eq. (omega (arith, eq), g)) (λ ne. o j)
  Step-IsTame g keep (fork_fails i at lt) o = o
  Step-IsTame g keep (all_forked i at le) o = o
  Step-IsTame {s} g keep (waitpid i p at lt e x) o =
      λ j. assign-All (IsTameEntry j) s.entries i _ j (λ eq. tt) (λ ne. o j)
  Step-IsTame g keep (waitpid_unset i at lt e) o = o
  Step-IsTame {s} g keep (waitpid_unset_reaps i k p at lt e e' x) o =
      λ j. assign-All (IsTameEntry j) s.entries k _ j (λ eq. tt) (λ ne. o j)
  Step-IsTame g keep (waitpid_gone i p at lt e) o = o
  Step-IsTame g keep (all_waited i at le) o = o
  Step-IsTame {s} g keep (process_steps i p q e st) o =
      let tame = subst (IsTameEntry i) e (o i) in
      λ j.
        assign-All (IsTameEntry j) s.entries i _ j
          (λ eq. (omega (arith, eq, tame.0), keep p q st tame.1)) (λ ne. o j)

  Steps-IsTame :
      {s : Level P}
      → IsGood program.first
      → ((p q : P) → program.IsStep p q → IsGood p → IsGood q)
      → Steps program n start s
      → IsTame s
  unfolding IsTame
  Steps-IsTame g keep here = λ i. tt
  Steps-IsTame g keep (next r st) = Step-IsTame g keep st (Steps-IsTame g keep r)

  module _ (cost : P → ℕ) where
    -- the steps that are left for a forked process
    abbrev entry_cost : Entry P → ℕ
    entry_cost (forked p) = cost p
    entry_cost _ = 0

    -- each turn of the first loop pays for the process that it forks
    abbrev loop_cost : Loop → ℕ
    loop_cost (forking i) = (n - i) * (cost program.first + 1) + n + 2
    loop_cost (waiting i) = n - i + 1
    loop_cost _ = 0

    abbrev pub level_cost : Level P → ℕ
    level_cost s = loop_cost s.loop + sum entry_cost n s.entries

    assign-cost :
        (s : Level P) (i : ℕ) (a b : Entry P)
        → i < n
        → s.entries i ≡ a
        → sum entry_cost n (assign s.entries i b) + entry_cost a
          ≡ sum entry_cost n s.entries + entry_cost b
    assign-cost s i a b lt e =
        subst
          (λ x.
            sum entry_cost n (assign s.entries i b) + entry_cost x
            ≡ sum entry_cost n s.entries + entry_cost b)
          e (sum-assign entry_cost n s.entries i b lt)

    turn-pays : (k c : ℕ) → (k + 1) * c ≡ k * c + c
    turn-pays k c = grind arith

    fork-loop_cost :
        (i : ℕ)
        → i < n
        → loop_cost (forking i) ≡ loop_cost (forking (i + 1)) + (cost program.first + 1)
    fork-loop_cost i lt = omega (
      arith,
      ap (λ k. k * (cost program.first + 1)) {x = n - i} {y = n - (i + 1) + 1} (omega arith),
      turn-pays (n - (i + 1)) (cost program.first + 1),
    )

    Step-level_cost :
        {s t : Level P}
        → ((p q : P) → program.IsStep p q → IsGood p → cost q < cost p)
        → Step program n s t
        → IsTame s
        → level_cost t < level_cost s
    unfolding IsTame
    Step-level_cost {s} less (fork i at lt) o = omega (
      arith,
      ap loop_cost at,
      fork-loop_cost i lt,
      sum-assign entry_cost n s.entries i (forked program.first) lt,
    )
    Step-level_cost {s} less (fork_fails i at lt) o =
        omega (arith, ap loop_cost at, fork-loop_cost i lt)
    Step-level_cost {s} less (all_forked i at le) o = omega (arith, ap loop_cost at)
    Step-level_cost {s} less (waitpid i p at lt e x) o =
        omega (arith, ap loop_cost at, assign-cost s i (forked p) (reaped p) lt e)
    Step-level_cost {s} less (waitpid_unset i at lt e) o = omega (arith, ap loop_cost at)
    Step-level_cost {s} less (waitpid_unset_reaps i k p at lt e e' x) o =
        let tame = subst (IsTameEntry k) e' (o k) in
        omega (arith, ap loop_cost at, assign-cost s k (forked p) (reaped p) (tame.0) e')
    Step-level_cost {s} less (waitpid_gone i p at lt e) o = omega (arith, ap loop_cost at)
    Step-level_cost {s} less (all_waited i at le) o = omega (arith, ap loop_cost at)
    Step-level_cost {s} less (process_steps i p q e st) o =
        let tame = subst (IsTameEntry i) e (o i) in
        omega (arith, assign-cost s i (forked p) (forked q) (tame.0) e, less p q st (tame.1))

    start-level_cost : level_cost start ≡ n * (cost program.first + 1) + n + 2
    start-level_cost = omega (
      arith,
      sum-const entry_cost n 0 (λ i. unset) (λ i lt. refl),
      ap (λ k. k * (cost program.first + 1)) {x = n - 0} {y = n} (omega arith),
    )

    number_lem :
        {s : Level P}
        → IsGood program.first
        → ((p q : P) → program.IsStep p q → IsGood p → IsGood q)
        → ((p q : P) → program.IsStep p q → IsGood p → cost q < cost p)
        → (r : Steps program n start s)
        → number r + level_cost s ≤ n * (cost program.first + 1) + n + 2
    number_lem g keep less here = omega (arith, start-level_cost)
    number_lem g keep less (next r st) =
        omega (arith, number_lem g keep less r, Step-level_cost less st (Steps-IsTame g keep r))

abbrev child_cost : Child → ℕ
child_cost sleeping = 1
child_cost exited = 0

ChildStep-cost : (c d : Child) → ChildStep c d → child_cost d < child_cost c
ChildStep-cost c d exit = omega arith

module _ (y : ℕ) where
  IsTameParent : Level Child → Type 0
  IsTameParent = IsTame children_process (λ c. Unit) y

  abbrev parent_cost : Level Child → ℕ
  parent_cost = level_cost children_process (λ c. Unit) y child_cost

  start-IsTameParent : IsTameParent start
  unfolding IsTameParent
  start-IsTameParent = Steps-IsTame children_process (λ c. Unit) y tt (λ c d st g. tt) here

  Step-IsTameParent :
      (p q : Level Child) → Step children_process y p q → IsTameParent p → IsTameParent q
  unfolding IsTameParent
  Step-IsTameParent p q st = Step-IsTame children_process (λ c. Unit) y tt (λ c d e g. tt) st

  Step-parent_cost :
      (p q : Level Child)
      → Step children_process y p q
      → IsTameParent p
      → parent_cost q < parent_cost p
  unfolding IsTameParent
  Step-parent_cost p q st o =
      Step-level_cost children_process (λ c. Unit) y child_cost (λ c d e g. ChildStep-cost c d e) st
        o

  start-parent_cost : parent_cost start ≡ 3 * y + 2
  start-parent_cost = omega (arith, start-level_cost children_process (λ c. Unit) y child_cost)

-- Every run of main with x parents and y children of each makes at most x * (3 * y + 4) + 2 steps,
-- the steps of all its processes counted, whichever forks fail.
pub Main-ends :
    {x y : ℕ} {s : Level (Level Child)} (r : Main x y s) → number r ≤ x * (3 * y + 4) + 2
Main-ends {x} {y} r = grind (
  arith,
  start-parent_cost y,
  number_lem (parent_process y) (IsTameParent y) x (parent_cost y) (start-IsTameParent y)
      (Step-IsTameParent y) (Step-parent_cost y) r,
)
