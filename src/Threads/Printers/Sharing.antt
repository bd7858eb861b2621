-- ===== src/Threads/Printers/Sharing.antt =====
-- How two threads of asm_8/printer.c get the same printer.
use linux_assignment.Prelude.{
  ℕ, suc, ◌+◌, ◌%◌, ◌≤◌, ◌<◌, ◌≡◌, ◌≢◌, ◌∙◌, refl, ap, subst, ℕ_discrete, none, arith, get_or,
}
use linux_assignment.Threads.Locks.{Mutex, Semaphore}
use linux_assignment.Threads.Printers.{
  available_printers, arriving, printing, System, start, wait, take_lock, choose, release, post,
  Reach, started, then_step,
}

module _ (m : Mutex) (w : Semaphore) where
  -- A thread that arrives while a permit and the mutex are free gets the next printer.
  record Served (n i : ℕ) (s t : System m w) : Type 0 where
    reach : Reach m w n t
    gets : t.pc i ≡ printing (get_or available_printers s.printer_index 0)
    others : (j : ℕ) → i ≢ j → t.pc j ≡ s.pc j
    next_index : t.printer_index ≡ (s.printer_index + 1) % 3
    less : w.value s.sem ≡ suc (w.value t.sem)
    open_again : m.owner t.lock ≡ none

  serve :
      {n : ℕ} {s : System m w} (i : ℕ)
      → Reach m w n s
      → i < n
      → s.pc i ≡ arriving
      → 0 < w.value s.sem
      → m.owner s.lock ≡ none
      → (t : System m w) × Served n i s t
  serve {n} {s} i r lt at enough free =
      let (sem, waited) = w.can_wait s.sem enough in
      let (lock, locked) = m.can_lock s.lock i free in
      let (unlock, unlocked) = m.can_unlock lock i (m.Lock-owner s.lock i lock locked) in
      (
        _,
        record {
          reach =
              then_step
                (then_step
                  (then_step (then_step r (wait i sem lt at waited))
                    (take_lock i lock lt (ground arith) locked))
                  (choose i lt (ground arith)))
                (release i (get_or available_printers s.printer_index 0) unlock lt (ground arith)
                  unlocked);
          gets = ground arith;
          others = λ j ne. ground arith;
          next_index = refl;
          less = w.Wait-value s.sem sem waited;
          open_again = m.Unlock-free lock i unlock unlocked;
        },
      )

  -- The first `k` threads have printers, and the others have not arrived.
  record Crowd (n k : ℕ) (s : System m w) : Type 0 where
    reach : Reach m w n s
    index : s.printer_index ≡ k % 3
    first : 0 < k → s.pc 0 ≡ printing 1
    second : 1 < k → s.pc 1 ≡ printing 2
    later : (j : ℕ) → k ≤ j → s.pc j ≡ arriving
    permits : w.value s.sem + k ≡ 3
    unlocked : m.owner s.lock ≡ none

  next_in_turn :
      (s : System m w) (k p : ℕ)
      → s.printer_index ≡ k
      → get_or available_printers k 0 ≡ p
      → printing (get_or available_printers s.printer_index 0) ≡ printing p
  next_in_turn s k p e f = rw e (ap printing f)

  grow :
      {n k : ℕ} {s : System m w}
      → Crowd n k s
      → k < n
      → k < 3
      → (t : System m w) × Crowd n (k + 1) t
  grow {n} {k} {s} c below room =
      let (t, v) =
        serve k c.reach below (c.later k (omega arith)) (omega (arith, c.permits)) c.unlocked in
      (
        t,
        record {
          reach = v.reach;
          index = omega (arith, v.next_index, c.index);
          first = λ h. elim (ℕ_discrete k 0) [
            | yes e ↦
                subst (λ i. t.pc i ≡ printing 1) e
                  (v.gets ∙ next_in_turn s 0 1 (c.index ∙ ap (λ i. i % 3) e) refl)
            | no ne ↦ v.others 0 ne ∙ c.first (omega arith)
          ];
          second = λ h. elim (ℕ_discrete k 1) [
            | yes e ↦
                subst (λ i. t.pc i ≡ printing 2) e
                  (v.gets ∙ next_in_turn s 1 2 (c.index ∙ ap (λ i. i % 3) e) refl)
            | no ne ↦ v.others 1 ne ∙ c.second (omega arith)
          ];
          later = λ j h. v.others j (omega arith) ∙ c.later j (omega arith);
          permits = omega (arith, c.permits, v.less);
          unlocked = v.open_again;
        },
      )

  three_print : (n : ℕ) → 4 ≤ n → (s : System m w) × Crowd n 3 s
  three_print n many =
      let none_yet : Crowd n 0 (start m w) = record {
        reach = started;
        index = refl;
        first = λ h. absurd (omega arith);
        second = λ h. absurd (omega arith);
        later = λ j h. refl;
        permits = omega (arith, w.value-initial 3);
        unlocked = m.initial-free;
      } in
      let (s1, c1) = grow none_yet (omega arith) (omega arith) in
      let (s2, c2) = grow c1 (omega arith) (omega arith) in grow c2 (omega arith) (omega arith)

  replaced_printer :
      {n : ℕ} {s : System m w}
      → 4 ≤ n
      → Crowd n 3 s
      → (t : System m w) × Reach m w n t × (t.pc 0 ≡ printing 1) × (t.pc 3 ≡ printing 1)
  replaced_printer {n} {s} many c =
      let (sem, posted) = w.can_post s.sem in
      let (t, v) =
        serve 3 (then_step c.reach (post 1 2 sem (omega arith) (c.second (omega arith)) posted))
          (omega arith) (c.later 3 (omega arith)) (omega (arith, w.Post-value s.sem sem posted))
          c.unlocked in
      (
        t,
        v.reach,
        v.others 0 (omega arith) ∙ c.first (omega arith),
        v.gets ∙ next_in_turn s 0 1 c.index refl,
      )

  -- With four threads or more, a state can be reached in which two of them print on the same
  -- printer.
  pub shared_printer :
      (n : ℕ)
      → 4 ≤ n
      → (s : System m w) × Reach m w n s × (s.pc 0 ≡ printing 1) × (s.pc 3 ≡ printing 1)
  shared_printer n many = let (s, c) = three_print n many in replaced_printer many c
