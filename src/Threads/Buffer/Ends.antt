-- ===== src/Threads/Buffer/Ends.antt =====
-- asm_7/ex_3/ex_3.c stops: how many steps its threads make at most.
mod Tests
use linux_assignment.Prelude.{
  ℕ, suc, ◌+◌, ◌-◌, ◌*◌, ◌≤◌, ◌<◌, ◌≡◌, ◌⊎◌, inl, inr, refl, arith, leb, not, ◌||◌, true, false,
}
use linux_assignment.Threads.Locks.{Mutex}
use linux_assignment.Threads.Buffer.{
  buffer_size, num_items, Stage, head, test, waiting, woken, body, signal, unlock, returned, wake,
  System, start, produce, consume, nothing_there, Step, p_lock, p_wait, p_relock, p_pass, p_body,
  p_signal, p_unlock, p_return, c_lock, c_wait, c_relock, c_pass, c_body, c_signal, c_unlock,
  c_return, Wakeup, p_wakeup, c_wakeup, Reach, started, then_step, then_wakeup,
}
use linux_assignment.Threads.Buffer.Invariant.{IsConsistent}
use linux_assignment.Threads.Buffer.Preserved.{Reach-IsConsistent}
use linux_assignment.Threads.Buffer.Progress.{progress, sums_agree}

-- What a thread has still to do, with `left` rounds to go: seven for a round, of which two pay for
-- the wake-up of the other thread.
abbrev weight : Stage → (left : ℕ) → ℕ
weight head left = 7 * left + 1
weight test left = 7 * left
weight waiting left = 7 * left - 1
weight woken left = 7 * left + 1
weight body left = 7 * left - 1
weight signal left = 7 * left - 2
weight unlock left = 7 * left - 5
weight returned left = 0

module _ (m : Mutex) where
  work : System m → ℕ
  work s = weight s.producer (num_items - s.i) + weight s.consumer (num_items - s.j)

  weight-wake : (st : Stage) (left : ℕ) → weight (wake st) left ≤ weight st left + 2
  weight-wake st left = ground arith

  -- Each step lessens the work.
  Step-work : {s t : System m} → Step m s t → IsConsistent m s → work t < work s
  unfolding work produce consume
  Step-work {s} (p_lock t at lt l) c = ground arith
  Step-work {s} (p_wait t at e l) c = ground arith
  Step-work {s} (p_relock t at l) c = ground arith
  Step-work {s} (p_pass at e) c = ground arith
  Step-work {s} (p_body at) c = ground arith
  Step-work {s} (p_signal at) c = ground (arith, weight-wake s.consumer (num_items - s.j))
  Step-work {s} (p_unlock t at l) c = ground arith
  Step-work {s} (p_return at e) c = ground arith
  Step-work {s} (c_lock t at lt l) c = ground arith
  Step-work {s} (c_wait t at e l) c = ground arith
  Step-work {s} (c_relock t at l) c = ground arith
  Step-work {s} (c_pass at e) c = ground arith
  Step-work {s} (c_body at) c = ground arith
  Step-work {s} (c_signal at) c = ground (arith, weight-wake s.producer (num_items - s.i))
  Step-work {s} (c_unlock t at l) c = ground arith
  Step-work {s} (c_return at e) c = ground arith

  Wakeup-work : {s t : System m} → Wakeup m s t → work t ≤ work s + 2
  unfolding work
  Wakeup-work {s} (p_wakeup at) = ground arith
  Wakeup-work {s} (c_wakeup at) = ground arith

  -- A run with its number of steps and its number of wake-ups by chance.
  pub data Run : (steps chances : ℕ) → System m → Type 0 where
    begin : Run 0 0 (start m)
    step : {n k : ℕ} {s t : System m} → Run n k s → Step m s t → Run (suc n) k t
    chance : {n k : ℕ} {s t : System m} → Run n k s → Wakeup m s t → Run n (suc k) t

  Run-Reach : {n k : ℕ} {s : System m} → Run n k s → Reach m s
  Run-Reach begin = started
  Run-Reach (step r st) = then_step (Run-Reach r) st
  Run-Reach (chance r w) = then_wakeup (Run-Reach r) w

  Run-work : {n k : ℕ} {s : System m} → Run n k s → n + work s ≤ 142 + 2 * k
  unfolding work
  Run-work begin = omega arith
  Run-work (step r st) =
      omega (arith, Run-work r, Step-work st (Reach-IsConsistent m (Run-Reach r)))
  Run-work (chance r w) = omega (arith, Run-work r, Wakeup-work w)

  -- However the threads are interleaved, a run has at most 142 steps and two more for each wake-up by
  -- chance; and where it ends some thread can make a step, or both have returned, the buffer is empty
  -- and both sums are 55.
  pub stops :
      {n k : ℕ} {s : System m}
      → Run n k s
      → (n ≤ 142 + 2 * k)
        × (((t : System m) × Step m s t)
            ⊎ ((s.producer ≡ returned)
                × (s.consumer ≡ returned)
                × (s.buffer_index ≡ 0)
                × (s.producer_sum ≡ 55)
                × (s.consumer_sum ≡ 55)))
  stops {n} {k} {s} r = (
    omega (arith, Run-work r),
    elim (progress m (Run-Reach r)) [
      | inl on ↦ inl on
      | inr (a, b) ↦
          let (none_left, produced, consumed) = sums_agree m (Run-Reach r) a b in
          inr (a, b, none_left, produced, consumed)
    ],
  )
