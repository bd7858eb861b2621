-- ===== src/Threads/Buffer/Progress/Tests.antt =====
-- The program of asm_7/ex_3/ex_3.c run by turns, and the theorems on it at states of that run.
use linux_assignment.Prelude.{
  ℕ, zero, suc, ◌≡◌, ◌⊎◌, inl, inr, refl, Bool-cases, Option-cases, dec_lt,
}
use linux_assignment.Threads.Locks.{simple_mutex}
use linux_assignment.Threads.Buffer.{
  returned, System, start, Step, Reach, started, then_step, produce, consume,
}
use linux_assignment.Threads.Buffer.Preserved.{Reach-IsConsistent}
use linux_assignment.Threads.Buffer.Progress.{turn_1, turn_2, progress}

record Play : Type 0 where
  last : System simple_mutex
  reach : Reach simple_mutex last

-- A thread makes a step if it can.
turn_of_producer : Play → Play
unfolding turn_1
turn_of_producer p =
    elim (turn_1 simple_mutex p.last.producer (Reach-IsConsistent simple_mutex p.reach) refl) [
      | inl on ↦ record { last = on.0; reach = then_step p.reach on.1 }
      | inr blocked ↦ p
    ]

turn_of_consumer : Play → Play
unfolding turn_2
turn_of_consumer p =
    elim (turn_2 simple_mutex p.last.consumer (Reach-IsConsistent simple_mutex p.reach) refl) [
      | inl on ↦ record { last = on.0; reach = then_step p.reach on.1 }
      | inr blocked ↦ p
    ]

-- `n` turns of each thread
play : ℕ → Play → Play
unfolding turn_of_producer turn_of_consumer Bool-cases Option-cases dec_lt produce consume
play zero p = p
play (suc n) p = play n (turn_of_consumer (turn_of_producer p))

abbrev at_start : Play
at_start = record { last = start simple_mutex; reach = started }

over :
    ((play 120 at_start).last.producer ≡ returned) × ((play 120 at_start).last.consumer ≡ returned)
unfolding play
over = (refl, refl)

progress_example :
    let s = (play 9 at_start).last in
    ((t : System simple_mutex) × Step simple_mutex s t)
    ⊎ ((s.producer ≡ returned) × (s.consumer ≡ returned))
progress_example = progress simple_mutex (play 9 at_start).reach
