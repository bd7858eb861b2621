-- ===== src/Deferred/Tasklet/Tests.antt =====
-- The theorems on asm_4/tasklet/tasklet.c after one interrupt.
use linux_assignment.Prelude.{◌≡◌, refl, true}
use linux_assignment.Deferred.Tasklet.{
  loaded, gone, System, start, interrupt_handler, tasklet_init, request_irq, interrupt, Steps, here,
  next,
}
use linux_assignment.Deferred.Tasklet.Unload.{left_behind}

abbrev interrupted : (s : System) × Steps start s
interrupted = (_, next (next (next here (tasklet_init refl)) (request_irq refl)) (interrupt refl))

at_work : interrupted.0.stage ≡ loaded
unfolding interrupt_handler
at_work = refl

left_behind_example : (t : System) × Steps interrupted.0 t × (t.stage ≡ gone) × (t.scheduled ≡ true)
left_behind_example = left_behind interrupted.1 at_work
