-- ===== src/Threads/Buffer/Preserved.antt =====
-- Every step of asm_7/ex_3/ex_3.c keeps the invariant.
use linux_assignment.Prelude.{ℕ, ◌+◌, ◌-◌, ◌<◌, ◌≡◌, arith, length-set}
use linux_assignment.Threads.Locks.{Mutex}
use linux_assignment.Threads.Buffer.{
  System, start, produce, consume, Step, p_lock, p_wait, p_relock, p_pass, p_body, p_signal,
  p_unlock, p_return, c_lock, c_wait, c_relock, c_pass, c_body, c_signal, c_unlock, c_return,
  Wakeup, p_wakeup, c_wakeup, Reach, started, then_step, then_wakeup,
}
use linux_assignment.Threads.Buffer.Invariant.{
  IsConsistent, sum_to, sum_first-set, sum_first-get_or,
}

sum_to-add_one : (n : ℕ) → sum_to (n + 1) ≡ sum_to n + (n + 1)
sum_to-add_one n = ground arith

sub_add_one : (n : ℕ) → 0 < n → n - 1 + 1 ≡ n
sub_add_one n h = omega arith

module _ (m : Mutex) where
  open m use {State, owner, initial-free, Lock-free, Lock-owner, Unlock-free}

  start-IsConsistent : IsConsistent m (start m)
  start-IsConsistent = ground (arith, initial-free)

  Step-IsConsistent : {s t : System m} → Step m s t → IsConsistent m s → IsConsistent m t
  unfolding produce consume
  Step-IsConsistent {s} (p_lock t at lt l) c =
      ground (arith, Lock-free s.lock 1 t l, Lock-owner s.lock 1 t l)
  Step-IsConsistent {s} (p_wait t at le l) c = ground (arith, Unlock-free s.lock 1 t l)
  Step-IsConsistent {s} (p_relock t at l) c =
      ground (arith, Lock-free s.lock 1 t l, Lock-owner s.lock 1 t l)
  Step-IsConsistent {s} (p_pass at lt) c = ground arith
  Step-IsConsistent {s} (p_body at) c = ground (
    arith,
    length-set s.buffer s.buffer_index (s.i + 1),
    sum_first-set s.buffer_index s.buffer (s.i + 1),
    sum_to-add_one s.i,
  )
  Step-IsConsistent {s} (p_signal at) c = ground arith
  Step-IsConsistent {s} (p_unlock t at l) c = ground (arith, Unlock-free s.lock 1 t l)
  Step-IsConsistent {s} (p_return at le) c = ground arith
  Step-IsConsistent {s} (c_lock t at lt l) c =
      ground (arith, Lock-free s.lock 2 t l, Lock-owner s.lock 2 t l)
  Step-IsConsistent {s} (c_wait t at w l) c = ground (arith, Unlock-free s.lock 2 t l)
  Step-IsConsistent {s} (c_relock t at l) c =
      ground (arith, Lock-free s.lock 2 t l, Lock-owner s.lock 2 t l)
  Step-IsConsistent {s} (c_pass at w) c = ground arith
  Step-IsConsistent {s} (c_body at) c =
      ground (arith, sum_first-get_or (s.buffer_index - 1) s.buffer, sub_add_one s.buffer_index)
  Step-IsConsistent {s} (c_signal at) c = ground arith
  Step-IsConsistent {s} (c_unlock t at l) c = ground (arith, Unlock-free s.lock 2 t l)
  Step-IsConsistent {s} (c_return at le) c = ground arith

  Wakeup-IsConsistent : {s t : System m} → Wakeup m s t → IsConsistent m s → IsConsistent m t
  Wakeup-IsConsistent {s} (p_wakeup at) c = ground arith
  Wakeup-IsConsistent {s} (c_wakeup at) c = ground arith

  pub Reach-IsConsistent : {s : System m} → Reach m s → IsConsistent m s
  Reach-IsConsistent started = start-IsConsistent
  Reach-IsConsistent (then_step r st) = Step-IsConsistent st (Reach-IsConsistent r)
  Reach-IsConsistent (then_wakeup r w) = Wakeup-IsConsistent w (Reach-IsConsistent r)
