-- ===== src/Threads/Buffer/Progress.antt =====
-- What asm_7/ex_3/ex_3.c promises: no access out of bounds, no deadlock, and equal sums at the end.
mod Tests
use linux_assignment.Prelude.{
  ℕ, suc, ◌+◌, ◌-◌, ◌≤◌, ◌<◌, ◌≡◌, ◌≢◌, ◌⊎◌, inl, inr, refl, ap, ◌∙◌, Bool, true, false, Bool-cases,
  Option-cases, Option, none, some, arith, length, dec_lt, leb, not, ◌&&◌, ◌||◌,
}
use linux_assignment.Threads.Locks.{Mutex}
use linux_assignment.Threads.Buffer.{
  buffer_size, num_items, Stage, head, test, waiting, woken, body, signal, unlock, returned, System,
  nothing_there, Step, p_lock, p_wait, p_relock, p_pass, p_body, p_signal, p_unlock, p_return,
  c_lock, c_wait, c_relock, c_pass, c_body, c_signal, c_unlock, c_return, Reach,
}
use linux_assignment.Threads.Buffer.Invariant.{IsConsistent, holding, made, sum_to}
use linux_assignment.Threads.Buffer.Preserved.{Reach-IsConsistent}

module _ (m : Mutex) where
  open m use {State, owner, can_lock, can_unlock}

  producer_in :
      {s : System m} (p : Stage)
      → IsConsistent m s
      → s.producer ≡ p
      → (s.producer ≢ body) ⊎ (s.buffer_index < buffer_size)
  producer_in body c at = inr (ground arith)
  producer_in _ c at = inl (ground arith)

  consumer_in :
      {s : System m} (p : Stage)
      → IsConsistent m s
      → s.consumer ≡ p
      → (s.consumer ≢ body) ⊎ ((0 < s.buffer_index) × (s.buffer_index ≤ buffer_size))
  consumer_in body c at = inr (ground arith)
  consumer_in _ c at = inl (ground arith)

  -- In every reachable state the two threads do not both have the mutex, the buffer has its size,
  -- and a thread that is behind its `while` finds its element there: the producer below the end of
  -- the buffer, the consumer in it and above its start.
  pub body_in_bounds :
      {s : System m}
      → Reach m s
      → (holding s.producer && holding s.consumer ≡ false)
        × (length s.buffer ≡ buffer_size)
        × ((s.producer ≢ body) ⊎ (s.buffer_index < buffer_size))
        × ((s.consumer ≢ body) ⊎ ((0 < s.buffer_index) × (s.buffer_index ≤ buffer_size)))
  body_in_bounds {s} r =
      let c = Reach-IsConsistent m r in
      (ground arith, ground arith, producer_in s.producer c refl, consumer_in s.consumer c refl)

  -- In a reachable state in which both threads have returned, the buffer is empty and both sums are
  -- 55, which is 1 + 2 + … + 10.
  pub sums_agree :
      {s : System m}
      → Reach m s
      → s.producer ≡ returned
      → s.consumer ≡ returned
      → (s.buffer_index ≡ 0) × (s.producer_sum ≡ 55) × (s.consumer_sum ≡ 55)
  sums_agree {s} r a b =
      let c = Reach-IsConsistent m r in
      let all : made m s ≡ num_items = ground arith in
      let sum : s.producer_sum ≡ 55 = c.produced ∙ ap sum_to all in
      let none_left : s.buffer_index ≡ 0 = ground arith in (none_left, sum, ground arith)

  -- Why a thread may be unable to go on.
  abbrev Blocked : System m → Stage → Type 0
  Blocked s p = (p ≡ returned) ⊎ ((p ≡ waiting) ⊎ ((holding p ≡ false) × (owner s.lock ≢ none)))

  abbrev CanGoOn : System m → Type 0
  CanGoOn s = (t : System m) × Step m s t

  turn_1 : {s : System m} (p : Stage) → IsConsistent m s → s.producer ≡ p → CanGoOn s ⊎ Blocked s p
  turn_1 {s} head c at = elim (dec_lt s.i num_items) [
    | no ge ↦ inl (_, p_return at (omega arith))
    | yes lt ↦ elim (Option-cases (owner s.lock)) [
      | inl free ↦ let (t, l) = can_lock s.lock 1 free in inl (_, p_lock t at lt l)
      | inr held ↦ inr (inr (inr (refl, λ free. ground (arith, held))))
    ]
  ]
  turn_1 {s} test c at =
      let (t, l) = can_unlock s.lock 1 (c.owned_1 (ground arith)) in
      elim (dec_lt s.buffer_index buffer_size) [
        | yes lt ↦ inl (_, p_pass at lt)
        | no ge ↦ inl (_, p_wait t at (omega arith) l)
      ]
  turn_1 waiting c at = inr (inr (inl refl))
  turn_1 {s} woken c at = elim (Option-cases (owner s.lock)) [
    | inl free ↦ let (t, l) = can_lock s.lock 1 free in inl (_, p_relock t at l)
    | inr held ↦ inr (inr (inr (refl, λ free. ground (arith, held))))
  ]
  turn_1 body c at = inl (_, p_body at)
  turn_1 signal c at = inl (_, p_signal at)
  turn_1 {s} unlock c at =
      let (t, l) = can_unlock s.lock 1 (c.owned_1 (ground arith)) in inl (_, p_unlock t at l)
  turn_1 returned c at = inr (inl refl)

  turn_2 : {s : System m} (p : Stage) → IsConsistent m s → s.consumer ≡ p → CanGoOn s ⊎ Blocked s p
  turn_2 {s} head c at = elim (dec_lt s.j num_items) [
    | no ge ↦ inl (_, c_return at (omega arith))
    | yes lt ↦ elim (Option-cases (owner s.lock)) [
      | inl free ↦ let (t, l) = can_lock s.lock 2 free in inl (_, c_lock t at lt l)
      | inr held ↦ inr (inr (inr (refl, λ free. ground (arith, held))))
    ]
  ]
  turn_2 {s} test c at =
      let (t, l) = can_unlock s.lock 2 (c.owned_2 (ground arith)) in
      elim (Bool-cases (nothing_there m s)) [
        | inr some_there ↦ inl (_, c_pass at some_there)
        | inl nothing ↦ inl (_, c_wait t at nothing l)
      ]
  turn_2 waiting c at = inr (inr (inl refl))
  turn_2 {s} woken c at = elim (Option-cases (owner s.lock)) [
    | inl free ↦ let (t, l) = can_lock s.lock 2 free in inl (_, c_relock t at l)
    | inr held ↦ inr (inr (inr (refl, λ free. ground (arith, held))))
  ]
  turn_2 body c at = inl (_, c_body at)
  turn_2 signal c at = inl (_, c_signal at)
  turn_2 {s} unlock c at =
      let (t, l) = can_unlock s.lock 2 (c.owned_2 (ground arith)) in inl (_, c_unlock t at l)
  turn_2 returned c at = inr (inl refl)

  both_blocked :
      {s : System m}
      → IsConsistent m s
      → Blocked s s.producer
      → Blocked s s.consumer
      → (s.producer ≡ returned) × (s.consumer ≡ returned)
  both_blocked c a b = ground (arith, c, a, b)

  -- No deadlock and no lost wake-up: in every reachable state some thread can make a step, which
  -- needs no wake-up by chance, or both threads have returned.
  pub progress :
      {s : System m}
      → Reach m s
      → ((t : System m) × Step m s t) ⊎ ((s.producer ≡ returned) × (s.consumer ≡ returned))
  progress {s} r =
      let c = Reach-IsConsistent m r in
      elim (turn_1 s.producer c refl) [
        | inl on ↦ inl on
        | inr a ↦ elim (turn_2 s.consumer c refl) [
          | inl on ↦ inl on
          | inr b ↦ inr (both_blocked c a b)
        ]
      ]
