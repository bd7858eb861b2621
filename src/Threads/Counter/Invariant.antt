-- ===== src/Threads/Counter/Invariant.antt =====
-- No increment under the lock is lost.
use linux_assignment.Prelude.{ℕ, suc, ◌+◌, ◌*◌, ◌<◌, ◌≡◌, refl, Bool, true, false, some, arith}
use linux_assignment.Prelude.Sums.{sum, sum-assign, sum-const}
use linux_assignment.Threads.Locks.{Mutex}
use linux_assignment.Threads.Counter.{
  Pc, idle, locked, loaded, stored, System, start, Step, take_lock, load, store, release, Reach,
  started, then_step,
}

-- the increments that a thread has still to store
abbrev pub remaining : Pc → ℕ
remaining (idle left) = left
remaining (locked left) = suc left
remaining (loaded left v) = suc left
remaining (stored left) = left

-- between the return of the lock call and the unlock call
abbrev pub critical : Pc → Bool
critical (idle left) = false
critical _ = true

module _ (m : Mutex) where
  open m use {State, owner, initial-free, Lock-free, Lock-owner, Unlock-free}

  pub record IsConsistent (threads rounds : ℕ) (s : System m) : Type 0 where
    pub counted : s.counter + sum remaining threads s.pc ≡ threads * rounds
    pub owned : (i : ℕ) → critical (s.pc i) ≡ true → owner s.lock ≡ some i
    pub busy : (i : ℕ) → owner s.lock ≡ some i → (i < threads) × (critical (s.pc i) ≡ true)
    pub fresh : (i left v : ℕ) → s.pc i ≡ loaded left v → v ≡ s.counter

  pub start-IsConsistent : (threads rounds : ℕ) → IsConsistent threads rounds (start m rounds)
  start-IsConsistent threads rounds = record {
    counted = omega (arith, sum-const remaining threads rounds (λ _. idle rounds) (λ i lt. refl));
    owned = λ i h. cc;
    busy = λ i h. cc initial-free;
    fresh = λ i left v h. cc;
  }

  pub Step-IsConsistent :
      {threads : ℕ} (rounds : ℕ) {s t : System m}
      → Step m threads s t
      → IsConsistent threads rounds s
      → IsConsistent threads rounds t
  Step-IsConsistent {threads} rounds {s} (take_lock i left t lt here l) c = record {
    counted = ground (arith, c.counted, sum-assign remaining threads s.pc i (locked left) lt);
    owned = λ j h. ground (arith, c.owned j, Lock-free s.lock i t l, Lock-owner s.lock i t l);
    busy = λ j h. ground (arith, Lock-owner s.lock i t l);
    fresh = λ j k v h. ground (arith, c.fresh j k v);
  }
  Step-IsConsistent {threads} rounds {s} (load i left lt here) c = record {
    counted =
        ground (arith, c.counted, sum-assign remaining threads s.pc i (loaded left s.counter) lt);
    owned = λ j h. ground (arith, c.owned j, c.owned i);
    busy = λ j h. ground (arith, c.busy j);
    fresh = λ j k v h. ground (arith, c.fresh j k v);
  }
  Step-IsConsistent {threads} rounds {s} (store i left v lt here) c = record {
    counted =
        ground (
          arith,
          c.counted,
          c.fresh i left v,
          sum-assign remaining threads s.pc i (stored left) lt,
        );
    owned = λ j h. ground (arith, c.owned j, c.owned i);
    busy = λ j h. ground (arith, c.busy j);
    fresh = λ j k w h. ground (arith, c.owned i, c.owned j);
  }
  Step-IsConsistent {threads} rounds {s} (release i left t lt here l) c = record {
    counted = ground (arith, c.counted, sum-assign remaining threads s.pc i (idle left) lt);
    owned = λ j h. ground (arith, c.owned j, c.owned i);
    busy = λ j h. ground (arith, Unlock-free s.lock i t l);
    fresh = λ j k w h. ground (arith, c.fresh j k w);
  }

  pub Reach-IsConsistent :
      {threads rounds : ℕ} {s : System m} → Reach m threads rounds s → IsConsistent threads rounds s
  Reach-IsConsistent {threads} {rounds} started = start-IsConsistent threads rounds
  Reach-IsConsistent {threads} {rounds} (then_step r st) =
      Step-IsConsistent rounds st (Reach-IsConsistent r)
