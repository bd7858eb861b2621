-- ===== src/Threads/Deadlock/Embrace.antt =====
-- How the threads of asm_7/demo_deadlock.c may block for ever.
use linux_assignment.Prelude.{
  ℕ, zero, suc, ◌≡◌, ◌≢◌, ◌⊎◌, inl, inr, refl, Bool, true, false, none, some, arith,
}
use linux_assignment.Threads.Locks.{Mutex}
use linux_assignment.Threads.Deadlock.{
  Pc, head, one, both, printed, leaving, returned, System, Step, lock1_1, lock2_1, print_1,
  unlock2_1, unlock1_1, return_1, lock2_2, lock1_2, print_2, unlock1_2, unlock2_2, return_2, Reach,
  started, then_step,
}

-- whether a thread holds the lock that it takes first, and the one that it takes second
abbrev pub has_first : Pc → Bool
has_first (head left) = false
has_first returned = false
has_first _ = true

abbrev pub has_second : Pc → Bool
has_second (both left) = true
has_second (printed left) = true
has_second _ = false

module _ (m : Mutex) where
  open m use {
    State, owner, initial-free, Lock, Lock-free, Lock-owner, Unlock-free, can_lock, can_unlock,
  }

  -- who holds which lock
  pub record IsConsistent (s : System m) : Type 0 where
    pub first_1 : has_first s.pc1 ≡ true → owner s.lock1 ≡ some 1
    pub second_1 : has_second s.pc1 ≡ true → owner s.lock2 ≡ some 1
    pub first_2 : has_first s.pc2 ≡ true → owner s.lock2 ≡ some 2
    pub second_2 : has_second s.pc2 ≡ true → owner s.lock1 ≡ some 2
    pub free_1 : has_first s.pc1 ≡ false → has_second s.pc2 ≡ false → owner s.lock1 ≡ none
    pub free_2 : has_first s.pc2 ≡ false → has_second s.pc1 ≡ false → owner s.lock2 ≡ none

  Step-IsConsistent : {s t : System m} → Step m s t → IsConsistent s → IsConsistent t
  Step-IsConsistent {s} (lock1_1 left t at l) c =
      ground (arith, Lock-free s.lock1 1 t l, Lock-owner s.lock1 1 t l)
  Step-IsConsistent {s} (lock2_1 left t at l) c =
      ground (arith, Lock-free s.lock2 1 t l, Lock-owner s.lock2 1 t l)
  Step-IsConsistent {s} (print_1 left at) c = ground arith
  Step-IsConsistent {s} (unlock2_1 left t at l) c = ground (arith, Unlock-free s.lock2 1 t l)
  Step-IsConsistent {s} (unlock1_1 left t at l) c = ground (arith, Unlock-free s.lock1 1 t l)
  Step-IsConsistent {s} (return_1 at) c = ground arith
  Step-IsConsistent {s} (lock2_2 left t at l) c =
      ground (arith, Lock-free s.lock2 2 t l, Lock-owner s.lock2 2 t l)
  Step-IsConsistent {s} (lock1_2 left t at l) c =
      ground (arith, Lock-free s.lock1 2 t l, Lock-owner s.lock1 2 t l)
  Step-IsConsistent {s} (print_2 left at) c = ground arith
  Step-IsConsistent {s} (unlock1_2 left t at l) c = ground (arith, Unlock-free s.lock1 2 t l)
  Step-IsConsistent {s} (unlock2_2 left t at l) c = ground (arith, Unlock-free s.lock2 2 t l)
  Step-IsConsistent {s} (return_2 at) c = ground arith

  Reach-IsConsistent : {n : ℕ} {s : System m} → Reach m n s → IsConsistent s
  Reach-IsConsistent started = ground (arith, initial-free)
  Reach-IsConsistent (then_step r st) = Step-IsConsistent st (Reach-IsConsistent r)

  -- Each has its first lock and waits for the other's.
  pub record IsEmbrace (s : System m) : Type 0 where
    pub rest_1 : ℕ
    pub rest_2 : ℕ
    pub waits_1 : s.pc1 ≡ one rest_1
    pub waits_2 : s.pc2 ≡ one rest_2

  abbrev pub IsStuck : System m → Type 0
  IsStuck s = (t : System m) → ¬ Step m s t

  IsEmbrace-IsStuck : {s : System m} → IsConsistent s → IsEmbrace s → IsStuck s
  IsEmbrace-IsStuck {s} c e v (lock1_1 left t at l) = ground arith
  IsEmbrace-IsStuck {s} c e v (lock2_1 left t at l) = ground (arith, Lock-free s.lock2 1 t l)
  IsEmbrace-IsStuck {s} c e v (print_1 left at) = ground arith
  IsEmbrace-IsStuck {s} c e v (unlock2_1 left t at l) = ground arith
  IsEmbrace-IsStuck {s} c e v (unlock1_1 left t at l) = ground arith
  IsEmbrace-IsStuck {s} c e v (return_1 at) = ground arith
  IsEmbrace-IsStuck {s} c e v (lock2_2 left t at l) = ground arith
  IsEmbrace-IsStuck {s} c e v (lock1_2 left t at l) = ground (arith, Lock-free s.lock1 2 t l)
  IsEmbrace-IsStuck {s} c e v (print_2 left at) = ground arith
  IsEmbrace-IsStuck {s} c e v (unlock1_2 left t at l) = ground arith
  IsEmbrace-IsStuck {s} c e v (unlock2_2 left t at l) = ground arith
  IsEmbrace-IsStuck {s} c e v (return_2 at) = ground arith

  -- With at least one round to go, a state can be reached in which each thread holds the lock that
  -- the other wants, and no step is possible.
  pub deadlock : (n : ℕ) → (s : System m) × Reach m (suc n) s × IsEmbrace s × IsStuck s
  deadlock n =
      let (t, l) = can_lock m.initial 1 initial-free in
      let (v, k) = can_lock m.initial 2 initial-free in
      let r : Reach m (suc n) _ =
        then_step (then_step started (lock1_1 n t refl l)) (lock2_2 n v refl k) in
      let e : IsEmbrace _ = record { rest_1 = n; rest_2 = n; waits_1 = refl; waits_2 = refl } in
      (_, r, e, IsEmbrace-IsStuck (Reach-IsConsistent r) e)

  -- What a thread waits for where it cannot go on.
  blocked_1 :
      {s : System m} (p : Pc)
      → IsConsistent s
      → IsStuck s
      → s.pc1 ≡ p
      → (p ≡ returned)
        ⊎ (((left : ℕ) × (p ≡ one left) × (owner s.lock2 ≢ none))
            ⊎ ((left : ℕ) × (p ≡ head left) × (owner s.lock1 ≢ none)))
  blocked_1 (head zero) c stuck at = absurd (stuck _ (return_1 at))
  blocked_1 {s} (head (suc left)) c stuck at = inr (
      inr (
        suc left,
        refl,
        λ free. let (t, l) = can_lock s.lock1 1 free in stuck _ (lock1_1 left t at l),
      ))
  blocked_1 {s} (one left) c stuck at = inr (
      inl
        (left, refl, λ free. let (t, l) = can_lock s.lock2 1 free in stuck _ (lock2_1 left t at l)))
  blocked_1 (both left) c stuck at = absurd (stuck _ (print_1 left at))
  blocked_1 {s} (printed left) c stuck at =
      let (t, l) = can_unlock s.lock2 1 (c.second_1 (ground arith)) in
      absurd (stuck _ (unlock2_1 left t at l))
  blocked_1 {s} (leaving left) c stuck at =
      let (t, l) = can_unlock s.lock1 1 (c.first_1 (ground arith)) in
      absurd (stuck _ (unlock1_1 left t at l))
  blocked_1 returned c stuck at = inl refl

  blocked_2 :
      {s : System m} (p : Pc)
      → IsConsistent s
      → IsStuck s
      → s.pc2 ≡ p
      → (p ≡ returned)
        ⊎ (((left : ℕ) × (p ≡ one left) × (owner s.lock1 ≢ none))
            ⊎ ((left : ℕ) × (p ≡ head left) × (owner s.lock2 ≢ none)))
  blocked_2 (head zero) c stuck at = absurd (stuck _ (return_2 at))
  blocked_2 {s} (head (suc left)) c stuck at = inr (
      inr (
        suc left,
        refl,
        λ free. let (t, l) = can_lock s.lock2 2 free in stuck _ (lock2_2 left t at l),
      ))
  blocked_2 {s} (one left) c stuck at = inr (
      inl
        (left, refl, λ free. let (t, l) = can_lock s.lock1 2 free in stuck _ (lock1_2 left t at l)))
  blocked_2 (both left) c stuck at = absurd (stuck _ (print_2 left at))
  blocked_2 {s} (printed left) c stuck at =
      let (t, l) = can_unlock s.lock1 2 (c.second_2 (ground arith)) in
      absurd (stuck _ (unlock1_2 left t at l))
  blocked_2 {s} (leaving left) c stuck at =
      let (t, l) = can_unlock s.lock2 2 (c.first_2 (ground arith)) in
      absurd (stuck _ (unlock2_2 left t at l))
  blocked_2 returned c stuck at = inl refl

  -- The embrace is the only way to block: in a reachable state with no next step either each thread
  -- holds the lock that the other wants, or both have returned.
  pub stuck_cases :
      {n : ℕ} {s : System m}
      → Reach m n s
      → IsStuck s
      → IsEmbrace s ⊎ ((s.pc1 ≡ returned) × (s.pc2 ≡ returned))
  stuck_cases {s = s} r stuck = elim (blocked_1 s.pc1 (Reach-IsConsistent r) stuck refl) [
    | inl a ↦ elim (blocked_2 s.pc2 (Reach-IsConsistent r) stuck refl) [
      | inl b ↦ inr (a, b)
      | inr b ↦ absurd (ground (arith, Reach-IsConsistent r, b))
    ]
    | inr (inl (k, a, h)) ↦ elim (blocked_2 s.pc2 (Reach-IsConsistent r) stuck refl) [
      | inr (inl (l, b, g)) ↦ inl (record { rest_1 = k; rest_2 = l; waits_1 = a; waits_2 = b })
      | inl b ↦ absurd (ground (arith, Reach-IsConsistent r, a, h, b))
      | inr (inr b) ↦ absurd (ground (arith, Reach-IsConsistent r, a, h, b))
    ]
    | inr (inr a) ↦
        absurd (
          ground
            (arith, Reach-IsConsistent r, a, blocked_2 s.pc2 (Reach-IsConsistent r) stuck refl))
  ]
