-- ===== src/Signals/TwoSends/Tests.antt =====
-- The theorem on "asm_5 /Ex_4/ex_4.c" for the order of steps that its sleeps give.
use linux_assignment.Prelude.{◌≡◌, refl}
use linux_assignment.Signals.TwoSends.{
  System, start, signal, block, fork, sleep_returns, unblocks, sleep_returns_again, wait_returns,
  b_wakes, sends_first, b_wakes_again, sends_second, b_exits, Steps, here, next,
}
use linux_assignment.Signals.TwoSends.Merged.{merged}

abbrev both_sent : (s : System) × Steps start s
both_sent = (
  _,
  next
      (next
        (next (next (next (next (next here (signal refl)) (block refl)) (fork refl)) (b_wakes refl))
          (sends_first refl))
        (b_wakes_again refl))
      (sends_second refl),
)

abbrev to_the_end : (t : System) × Steps both_sent.0 t
to_the_end = (
  _,
  next
      (next (next (next (next here (b_exits refl)) (sleep_returns refl)) (unblocks refl))
        (sleep_returns_again refl))
      (wait_returns refl refl),
)

merged_example : to_the_end.0.handled ≡ 1
merged_example = merged both_sent.1 refl refl to_the_end.1 refl
