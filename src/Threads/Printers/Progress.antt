-- ===== src/Threads/Printers/Progress.antt =====
-- The steps that the threads of asm_8/printer.c have left.
mod Tests
use linux_assignment.Prelude.{
  ℕ, suc, ◌+◌, ◌*◌, ◌≤◌, ◌<◌, ◌≡◌, ◌≢◌, ◌⊎◌, inl, inr, refl, Bool, true, false, some, Option-cases,
  dec_lt, arith, get_or,
}
use linux_assignment.Prelude.Sums.{sum, sum-assign, sum-const, all_or_one}
use linux_assignment.Threads.Locks.{Mutex, Semaphore}
use linux_assignment.Threads.Printers.{
  available_printers, Pc, arriving, granted, choosing, chosen, printing, gone, System, start, Step,
  wait, take_lock, choose, release, post, Reach, started, then_step,
}
use linux_assignment.Threads.Printers.Kept.{admitted, IsConsistent, printers_kept}

-- between the return of the lock call and the unlock call of `get_printer`
abbrev critical : Pc → Bool
critical choosing = true
critical (chosen p) = true
critical _ = false

-- the steps that a thread has still to make
abbrev steps_left : Pc → ℕ
steps_left arriving = 5
steps_left granted = 4
steps_left choosing = 3
steps_left (chosen p) = 2
steps_left (printing p) = 1
steps_left gone = 0

finished_or_not : (p : Pc) → (p ≡ gone) ⊎ (p ≢ gone)
finished_or_not arriving = inr (λ e. ground arith)
finished_or_not granted = inr (λ e. ground arith)
finished_or_not choosing = inr (λ e. ground arith)
finished_or_not (chosen p) = inr (λ e. ground arith)
finished_or_not (printing p) = inr (λ e. ground arith)
finished_or_not gone = inl refl

outside_or_not : (p : Pc) → (admitted p ≡ 0) ⊎ (admitted p ≡ 1)
outside_or_not p = ground arith

module _ (m : Mutex) (w : Semaphore) where
  open m use {owner, initial-free, Lock-free, Lock-owner, Unlock-free, can_lock, can_unlock}

  record IsOwned (n : ℕ) (s : System m w) : Type 0 where
    owned : (i : ℕ) → critical (s.pc i) ≡ true → owner s.lock ≡ some i
    busy : (i : ℕ) → owner s.lock ≡ some i → (i < n) × (critical (s.pc i) ≡ true)

  Step-IsOwned : {n : ℕ} {s t : System m w} → Step m w n s t → IsOwned n s → IsOwned n t
  Step-IsOwned {s = s} (wait i t lt at move) c = record {
    owned = λ j h. ground (arith, c.owned j);
    busy = λ j h. ground (arith, c.busy j);
  }
  Step-IsOwned {s = s} (take_lock i t lt at l) c = record {
    owned = λ j h. ground (arith, c.owned j, Lock-free s.lock i t l, Lock-owner s.lock i t l);
    busy = λ j h. ground (arith, Lock-owner s.lock i t l);
  }
  Step-IsOwned {s = s} (choose i lt at) c = record {
    owned = λ j h. ground (arith, c.owned j, c.owned i);
    busy = λ j h. ground (arith, c.busy j);
  }
  Step-IsOwned {s = s} (release i p t lt at l) c = record {
    owned = λ j h. ground (arith, c.owned j, c.owned i);
    busy = λ j h. ground (arith, Unlock-free s.lock i t l);
  }
  Step-IsOwned {s = s} (post i p t lt at move) c = record {
    owned = λ j h. ground (arith, c.owned j);
    busy = λ j h. ground (arith, c.busy j);
  }

  Reach-IsOwned : {n : ℕ} {s : System m w} → Reach m w n s → IsOwned n s
  Reach-IsOwned started = record { owned = λ i h. cc; busy = λ i h. cc initial-free }
  Reach-IsOwned (then_step r st) = Step-IsOwned st (Reach-IsOwned r)

  CanStep : ℕ → System m w → Type 0
  CanStep n s = (t : System m w) × Step m w n s t

  critical-CanStep :
      {n : ℕ} {s : System m w} (i : ℕ) (p : Pc)
      → IsOwned n s
      → i < n
      → s.pc i ≡ p
      → critical p ≡ true
      → CanStep n s
  unfolding CanStep
  critical-CanStep i choosing c lt at h = (_, choose i lt at)
  critical-CanStep {s = s} i (chosen p) c lt at h =
      let (t, l) = can_unlock s.lock i (c.owned i (ground arith)) in (_, release i p t lt at l)
  critical-CanStep i arriving c lt at h = cc
  critical-CanStep i granted c lt at h = cc
  critical-CanStep i (printing p) c lt at h = cc
  critical-CanStep i gone c lt at h = cc

  admitted-CanStep :
      {n : ℕ} {s : System m w} (i : ℕ) (p : Pc)
      → IsOwned n s
      → i < n
      → s.pc i ≡ p
      → admitted p ≡ 1
      → CanStep n s
  unfolding CanStep
  admitted-CanStep {s = s} i granted c lt at h = elim (Option-cases (owner s.lock)) [
    | inl free ↦ let (t, l) = can_lock s.lock i free in (_, take_lock i t lt at l)
    | inr (k, held) ↦
        let (below, inside) = c.busy k held in critical-CanStep k (s.pc k) c below refl inside
  ]
  admitted-CanStep i choosing c lt at h = critical-CanStep i choosing c lt at refl
  admitted-CanStep i (chosen p) c lt at h = critical-CanStep i (chosen p) c lt at refl
  admitted-CanStep {s = s} i (printing p) c lt at h =
      let (t, l) = w.can_post s.sem in (_, post i p t lt at l)
  admitted-CanStep i arriving c lt at h = cc
  admitted-CanStep i gone c lt at h = cc

  -- Without a permit left there are threads that hold one.
  arriving-CanStep :
      {n : ℕ} {s : System m w} (i : ℕ) → Reach m w n s → i < n → s.pc i ≡ arriving → CanStep n s
  unfolding CanStep
  arriving-CanStep {n} {s} i r lt at = elim (dec_lt 0 (w.value s.sem)) [
    | yes more ↦ let (t, move) = w.can_wait s.sem more in (_, wait i t lt at move)
    | no none_left ↦
        elim (all_or_one (λ p. admitted p ≡ 0) (λ p. admitted p ≡ 1) n s.pc outside_or_not) [
          | inr (k, below, inside) ↦ admitted-CanStep k (s.pc k) (Reach-IsOwned r) below refl inside
          | inl all ↦
              absurd (omega (arith, (printers_kept m w r).permits, sum-const admitted n 0 s.pc all))
        ]
  ]

  all-CanStep :
      {n : ℕ} {s : System m w} (i : ℕ) (p : Pc)
      → Reach m w n s
      → i < n
      → s.pc i ≡ p
      → p ≢ gone
      → CanStep n s
  all-CanStep i arriving r lt at h = arriving-CanStep i r lt at
  all-CanStep i granted r lt at h = admitted-CanStep i granted (Reach-IsOwned r) lt at refl
  all-CanStep i choosing r lt at h = admitted-CanStep i choosing (Reach-IsOwned r) lt at refl
  all-CanStep i (chosen p) r lt at h = admitted-CanStep i (chosen p) (Reach-IsOwned r) lt at refl
  all-CanStep i (printing p) r lt at h =
      admitted-CanStep i (printing p) (Reach-IsOwned r) lt at refl
  all-CanStep i gone r lt at h = absurd (h refl)

  work : ℕ → System m w → ℕ
  work n s = sum steps_left n s.pc

  Step-work : {n : ℕ} {s t : System m w} → Step m w n s t → work n s ≡ suc (work n t)
  unfolding work
  Step-work {n} {s} (wait i t lt at move) =
      ground (arith, sum-assign steps_left n s.pc i granted lt)
  Step-work {n} {s} (take_lock i t lt at l) =
      ground (arith, sum-assign steps_left n s.pc i choosing lt)
  Step-work {n} {s} (choose i lt at) = ground (
    arith,
    sum-assign steps_left n s.pc i (chosen (get_or available_printers s.printer_index 0)) lt,
  )
  Step-work {n} {s} (release i p t lt at l) =
      ground (arith, sum-assign steps_left n s.pc i (printing p) lt)
  Step-work {n} {s} (post i p t lt at move) = ground (arith, sum-assign steps_left n s.pc i gone lt)

  -- how many steps have been made
  abbrev pub number : {n : ℕ} {s : System m w} → Reach m w n s → ℕ
  number started = 0
  number (then_step r st) = number r + 1

  number_lem : {n : ℕ} {s : System m w} (r : Reach m w n s) → number r + work n s ≡ n * 5
  unfolding work
  number_lem {n} started = omega (arith, sum-const steps_left n 5 (λ _. arriving) (λ i lt. refl))
  number_lem (then_step r st) = omega (arith, number_lem r, Step-work st)

  -- However the threads are interleaved, a run makes at most five steps for each thread, and in every
  -- state that it reaches some thread can go on, or all have returned.
  pub threads_end :
      {n : ℕ} {s : System m w} (r : Reach m w n s)
      → (number r ≤ n * 5)
        × (((t : System m w) × Step m w n s t) ⊎ ((i : ℕ) → i < n → s.pc i ≡ gone))
  unfolding CanStep
  threads_end {n} {s} r = (
    omega (arith, number_lem r),
    elim (all_or_one (λ p. p ≡ gone) (λ p. p ≢ gone) n s.pc finished_or_not) [
      | inl all ↦ inr all
      | inr (i, lt, busy) ↦ inl (all-CanStep i (s.pc i) r lt refl busy)
    ],
  )
