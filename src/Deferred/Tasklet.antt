-- ===== src/Deferred/Tasklet.antt =====
-- asm_4/tasklet/tasklet.c: an interrupt handler that schedules a tasklet. A step is one call of the
-- module, one interrupt, or one run of the tasklet. As documented, a tasklet that is scheduled twice
-- before it runs runs once, `tasklet_kill` returns when the tasklet is neither scheduled nor running,
-- and `free_irq` when no handler runs; interrupts come only while the handler is registered.
pub mod Unload
mod Tests
use linux_assignment.Prelude.{ℕ, ◌+◌, ◌≡◌, Bool, true, false, List, [], ◌∷◌, ℤ, pos, negsuc}

pub data Stage : Type 0 where
  unloaded : Stage  -- before `my_init`
  initialised : Stage  -- after `tasklet_init`
  refused : ℤ → Stage  -- `my_init` has returned an error
  loaded : Stage  -- `my_init` has returned 0
  killed : Stage  -- after `tasklet_kill`
  gone : Stage  -- `my_exit` has returned, and the module's text is freed

-- `runs` counts the calls of `tasklet_work`, `interrupts` those of `interrupt_handler`.
pub record System : Type 0 where
  pub stage : Stage
  pub registered : Bool
  pub scheduled : Bool
  pub interrupts : ℕ
  pub runs : ℕ

abbrev pub start : System
start = record { stage = unloaded; registered = false; scheduled = false; interrupts = 0; runs = 0 }

-- `interrupt_handler`
pub interrupt_handler : System → System
interrupt_handler s = record s { scheduled = true; interrupts = s.interrupts + 1 }

-- `tasklet_work`; the kernel takes the tasklet off its list before it calls it.
pub tasklet_work : System → System
tasklet_work s = record s { scheduled = false; runs = s.runs + 1 }

pub data Step (s : System) : System → Type 0 where
  tasklet_init : s.stage ≡ unloaded → Step s (record s { stage = initialised })
  request_irq : s.stage ≡ initialised → Step s (record s { stage = loaded; registered = true })
  request_refused :
      (e : ℕ) → s.stage ≡ initialised → Step s (record s { stage = refused (negsuc e) })
  interrupt : s.registered ≡ true → Step s (interrupt_handler s)
  run : s.scheduled ≡ true → Step s (tasklet_work s)
  tasklet_kill : s.stage ≡ loaded → s.scheduled ≡ false → Step s (record s { stage = killed })
  free_irq : s.stage ≡ killed → Step s (record s { stage = gone; registered = false })

pub data Steps (s : System) : System → Type 0 where
  here : Steps s s
  next : {t v : System} → Steps s t → Step t v → Steps s v
