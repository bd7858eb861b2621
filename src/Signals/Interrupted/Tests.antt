-- ===== src/Signals/Interrupted/Tests.antt =====
-- SIGINT comes in the first round.
use linux_assignment.Prelude.{◌∷◌, [], refl, arith}
use linux_assignment.Signals.Interrupted.{
  exited, starting, working, interrupted, System, start, installs, starts, works, interrupts, Steps,
  here, next,
}
use linux_assignment.Signals.Interrupted.Messages.{AreLines, messages_lem}

abbrev stopped : System
stopped = record { stage = exited 0; printed = starting ∷ working 1 ∷ interrupted ∷ [] }

abbrev short_run : Steps start stopped
short_run =
    next (next (next (next here (installs refl)) (starts refl)) (works 1 refl (omega arith)))
      (interrupts tt)

messages_lem_example : AreLines stopped.stage stopped.printed
messages_lem_example = messages_lem short_run
