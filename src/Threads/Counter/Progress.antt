-- ===== src/Threads/Counter/Progress.antt =====
-- The threads of `Counter` in their critical sections, and the steps that they have left.
use linux_assignment.Prelude.{
  ℕ, zero, suc, ◌+◌, ◌*◌, ◌≤◌, ◌<◌, ◌≡◌, ◌≢◌, ◌⊎◌, inl, inr, refl, true, false, Option-cases, arith,
}
use linux_assignment.Prelude.Sums.{sum, sum-assign, sum-const, all_or_one}
use linux_assignment.Threads.Locks.{Mutex}
use linux_assignment.Threads.Counter.{
  Pc, idle, locked, loaded, stored, System, start, Step, take_lock, load, store, release, Reach,
  started, then_step,
}
use linux_assignment.Threads.Counter.Invariant.{
  remaining, critical, IsConsistent, Reach-IsConsistent,
}

-- the steps that a thread has still to make
abbrev pub steps_left : Pc → ℕ
steps_left (idle left) = 4 * left
steps_left (locked left) = 4 * left + 3
steps_left (loaded left v) = 4 * left + 2
steps_left (stored left) = 4 * left + 1

finished_or_not : (p : Pc) → (p ≡ idle 0) ⊎ (p ≢ idle 0)
finished_or_not (idle zero) = inl refl
finished_or_not (idle (suc left)) = inr (λ e. ground arith)
finished_or_not (locked left) = inr (λ e. ground arith)
finished_or_not (loaded left v) = inr (λ e. ground arith)
finished_or_not (stored left) = inr (λ e. ground arith)

module _ (m : Mutex) where
  open m use {State, owner, can_lock, can_unlock}

  abbrev pub IsFinished : ℕ → System m → Type 0
  IsFinished threads s = (i : ℕ) → i < threads → s.pc i ≡ idle 0

  -- In every reachable state, while one thread is between its lock and its unlock call, no other
  -- thread is.
  pub mutual_exclusion :
      {threads rounds : ℕ} {s : System m} (i j : ℕ)
      → Reach m threads rounds s
      → critical (s.pc i) ≡ true
      → i ≢ j
      → critical (s.pc j) ≡ false
  mutual_exclusion i j r a ne =
      ground (arith, (Reach-IsConsistent m r).owned i, (Reach-IsConsistent m r).owned j)

  pub finished_counter :
      {threads rounds : ℕ} {s : System m}
      → Reach m threads rounds s
      → IsFinished threads s
      → s.counter ≡ threads * rounds
  finished_counter {threads} {rounds} {s} r done = omega (
    arith,
    (Reach-IsConsistent m r).counted,
    sum-const remaining threads 0 s.pc (λ i lt. ground (arith, done i lt)),
  )

  -- A thread inside the critical section can always go on.
  critical_step :
      {threads rounds : ℕ} {s : System m} (i : ℕ) (p : Pc)
      → IsConsistent m threads rounds s
      → i < threads
      → s.pc i ≡ p
      → critical p ≡ true
      → (t : System m) × Step m threads s t
  critical_step i (idle left) c lt here h = cc
  critical_step i (locked left) c lt here h = (_, load i left lt here)
  critical_step i (loaded left v) c lt here h = (_, store i left v lt here)
  critical_step {s = s} i (stored left) c lt here h =
      let (t, l) = can_unlock s.lock i (c.owned i (ground arith)) in (_, release i left t lt here l)

  unfinished_step :
      {threads rounds : ℕ} {s : System m} (i : ℕ) (p : Pc)
      → IsConsistent m threads rounds s
      → i < threads
      → s.pc i ≡ p
      → p ≢ idle 0
      → (t : System m) × Step m threads s t
  unfinished_step i (idle zero) c lt here h = absurd (h refl)
  unfinished_step {s = s} i (idle (suc left)) c lt here h = elim (Option-cases (owner s.lock)) [
    | inl free ↦ let (t, l) = can_lock s.lock i free in (_, take_lock i left t lt here l)
    | inr (k, held) ↦
        let (below, inside) = c.busy k held in critical_step k (s.pc k) c below refl inside
  ]
  unfinished_step i (locked left) c lt here h = critical_step i (locked left) c lt here refl
  unfinished_step i (loaded left v) c lt here h = critical_step i (loaded left v) c lt here refl
  unfinished_step i (stored left) c lt here h = critical_step i (stored left) c lt here refl

  pub work : ℕ → System m → ℕ
  work threads s = sum steps_left threads s.pc

  -- Each step is one of those that were left.
  pub Step-work :
      {threads : ℕ} {s t : System m} → Step m threads s t → work threads s ≡ suc (work threads t)
  unfolding work
  Step-work {threads} {s} (take_lock i left t lt here l) =
      ground (arith, sum-assign steps_left threads s.pc i (locked left) lt)
  Step-work {threads} {s} (load i left lt here) =
      ground (arith, sum-assign steps_left threads s.pc i (loaded left s.counter) lt)
  Step-work {threads} {s} (store i left v lt here) =
      ground (arith, sum-assign steps_left threads s.pc i (stored left) lt)
  Step-work {threads} {s} (release i left t lt here l) =
      ground (arith, sum-assign steps_left threads s.pc i (idle left) lt)

  -- A run of a given number of steps.
  pub data Run (threads : ℕ) : System m → ℕ → System m → Type 0 where
    stop : {s : System m} → Run threads s 0 s
    go :
        {s t v : System m} {n : ℕ}
        → Step m threads s t
        → Run threads t n v
        → Run threads s (suc n) v

  Run-work :
      {threads n : ℕ} {s t : System m} → Run threads s n t → work threads s ≡ n + work threads t
  Run-work stop = omega arith
  Run-work (go st r) = omega (arith, Step-work st, Run-work r)

  Run-Reach :
      {threads rounds n : ℕ} {s t : System m}
      → Reach m threads rounds s
      → Run threads s n t
      → Reach m threads rounds t
  Run-Reach r stop = r
  Run-Reach r (go st rest) = Run-Reach (then_step r st) rest

  work-start : (threads rounds : ℕ) → work threads (start m rounds) ≡ threads * (4 * rounds)
  unfolding work
  work-start threads rounds =
      sum-const steps_left threads (4 * rounds) (λ _. idle rounds) (λ i lt. refl)

  -- In a reachable state some thread can go on, or all have finished and everything is counted.
  unfinished_or_counted :
      {threads rounds : ℕ} {s : System m}
      → Reach m threads rounds s
      → ((t : System m) × Step m threads s t) ⊎ (s.counter ≡ threads * rounds)
  unfinished_or_counted {threads} {s = s} r =
      elim (all_or_one (λ p. p ≡ idle 0) (λ p. p ≢ idle 0) threads s.pc finished_or_not) [
        | inl all ↦ inr (finished_counter r all)
        | inr (i, lt, busy) ↦ inl (unfinished_step i (s.pc i) (Reach-IsConsistent m r) lt refl busy)
      ]

  -- However the threads are interleaved, a run has at most four steps for each round of each thread,
  -- and where it ends some thread can go on or the counter is the product of threads and rounds.
  pub Run-ends :
      {threads rounds n : ℕ} {s : System m}
      → Run threads (start m rounds) n s
      → (n ≤ threads * (4 * rounds))
        × (((t : System m) × Step m threads s t) ⊎ (s.counter ≡ threads * rounds))
  Run-ends {threads} {rounds} r = (
    omega (arith, Run-work r, work-start threads rounds),
    unfinished_or_counted (Run-Reach started r),
  )
