-- ===== src/Signals/Family/Tests.antt =====
-- The theorems on the family of asm_5 /Ex_5/ex_5.c, in a run where the sleep of the parent returns at
-- once.
use linux_assignment.Prelude.{refl, arith}
use linux_assignment.Signals.Family.{
  System, start, install, all_installed, fork, all_forked, sleep_returns, Steps, here, next,
}

abbrev interrupted : (s : System) × Steps start s
interrupted = (
  _,
  next
      (next
        (next
          (next
            (next
              (next
                (next
                  (next (next here (install 0 refl (omega arith))) (install 1 refl (omega arith)))
                  (install 2 refl (omega arith)))
                (all_installed 3 refl (omega arith)))
              (fork 0 refl (omega arith)))
            (fork 1 refl (omega arith)))
          (fork 2 refl (omega arith)))
        (all_forked 3 refl (omega arith)))
      (sleep_returns refl),
)
