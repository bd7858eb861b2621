-- ===== src/Threads/Printers/Kept.antt =====
-- What the threads of asm_8/printer.c keep of the permits and the printers at every moment.
use linux_assignment.Prelude.{
  ℕ, ◌+◌, ◌≤◌, ◌<◌, ◌≡◌, refl, subst, Bool-cases, inl, inr, arith, ◌==◌, get_or,
}
use linux_assignment.Prelude.Sums.{assign, sum, sum-assign, sum-const}
use linux_assignment.Threads.Locks.{Mutex, Semaphore}
use linux_assignment.Threads.Printers.{
  available_printers, Pc, arriving, granted, choosing, chosen, printing, gone, System, Step, wait,
  take_lock, choose, release, post, Reach, started, then_step,
}

-- between `sem_wait` and `sem_post`
abbrev pub admitted : Pc → ℕ
admitted arriving = 0
admitted gone = 0
admitted _ = 1

-- what a thread holds is one of the three printers
abbrev pub IsPrinter : Pc → Type 0
IsPrinter (chosen p) = (1 ≤ p) × (p ≤ 3)
IsPrinter (printing p) = (1 ≤ p) × (p ≤ 3)
IsPrinter _ = Unit {0}

module _ (m : Mutex) (w : Semaphore) where
  pub record IsConsistent (n : ℕ) (s : System m w) : Type 0 where
    pub permits : w.value s.sem + sum admitted n s.pc ≡ 3
    pub index_in : s.printer_index < 3
    pub known : (i : ℕ) → IsPrinter (s.pc i)

  chosen-IsPrinter : (k : ℕ) → k < 3 → IsPrinter (chosen (get_or available_printers k 0))
  chosen-IsPrinter ℕ.zero h = omega arith
  chosen-IsPrinter (ℕ.suc ℕ.zero) h = omega arith
  chosen-IsPrinter (ℕ.suc (ℕ.suc ℕ.zero)) h = omega arith
  chosen-IsPrinter (ℕ.suc (ℕ.suc (ℕ.suc k))) h = absurd (omega arith)

  known-assign :
      (s : System m w) (i : ℕ) (p : Pc)
      → ((j : ℕ) → IsPrinter (s.pc j))
      → IsPrinter p
      → (j : ℕ) → IsPrinter (assign s.pc i p j)
  known-assign s i p known good j = elim (Bool-cases (i == j)) [
    | inl same ↦ rw same good
    | inr other ↦ rw other (known j)
  ]

  Step-IsConsistent :
      {n : ℕ} {s t : System m w} → Step m w n s t → IsConsistent n s → IsConsistent n t
  Step-IsConsistent {n} {s} (wait i t lt at move) c = record {
    permits =
        ground
          (arith, c.permits, w.Wait-value s.sem t move, sum-assign admitted n s.pc i granted lt);
    index_in = c.index_in;
    known = known-assign s i granted c.known tt;
  }
  Step-IsConsistent {n} {s} (take_lock i t lt at move) c = record {
    permits = ground (arith, c.permits, sum-assign admitted n s.pc i choosing lt);
    index_in = c.index_in;
    known = known-assign s i choosing c.known tt;
  }
  Step-IsConsistent {n} {s} (choose i lt at) c = record {
    permits = ground (
      arith,
      c.permits,
      sum-assign admitted n s.pc i (chosen (get_or available_printers s.printer_index 0)) lt,
    );
    index_in = omega arith;
    known = known-assign s i _ c.known (chosen-IsPrinter s.printer_index c.index_in);
  }
  Step-IsConsistent {n} {s} (release i p t lt at move) c = record {
    permits = ground (arith, c.permits, sum-assign admitted n s.pc i (printing p) lt);
    index_in = c.index_in;
    known = known-assign s i (printing p) c.known (subst IsPrinter at (c.known i));
  }
  Step-IsConsistent {n} {s} (post i p t lt at move) c = record {
    permits =
        ground (arith, c.permits, w.Post-value s.sem t move, sum-assign admitted n s.pc i gone lt);
    index_in = c.index_in;
    known = known-assign s i gone c.known tt;
  }

  -- In every reachable state the permits that are left and the threads between `sem_wait` and
  -- `sem_post` make three, the array is indexed inside its bounds, and what a thread got is one of
  -- the three printers.
  pub printers_kept : {n : ℕ} {s : System m w} → Reach m w n s → IsConsistent n s
  printers_kept {n} started = record {
    permits =
        omega (arith, w.value-initial 3, sum-const admitted n 0 (λ _. arriving) (λ i lt. refl));
    index_in = omega arith;
    known = λ i. tt;
  }
  printers_kept (then_step r st) = Step-IsConsistent st (printers_kept r)
