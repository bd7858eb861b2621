-- ===== src/Deferred/Work/Flush.antt =====
-- Unloading asm_4/workqueue/workqueue.c waits for its work.
use linux_assignment.Prelude.{ℕ, ◌+◌, ◌≡◌, refl, arith}
use linux_assignment.Deferred.Work.{
  Stage, unloaded, initialised, loaded, gone, Work, idle, queued, running, System, start, Step,
  init_work, schedule_work, handler_starts, handler_ends, flush_work, Steps, here, next,
}

abbrev unfinished : Work → ℕ
unfinished idle = 0
unfinished _ = 1

abbrev was_scheduled : Stage → ℕ
was_scheduled unloaded = 0
was_scheduled initialised = 0
was_scheduled _ = 1

record IsConsistent (s : System) : Type 0 where
  counted : unfinished s.work + s.completed ≡ was_scheduled s.stage
  ended : s.stage ≡ gone → s.work ≡ idle

Step-IsConsistent : {s t : System} → Step s t → IsConsistent s → IsConsistent t
Step-IsConsistent (init_work at) c = ground arith
Step-IsConsistent (schedule_work at) c = ground arith
Step-IsConsistent (handler_starts w) c = ground arith
Step-IsConsistent (handler_ends w) c = ground arith
Step-IsConsistent (flush_work at w) c = ground arith

Steps-IsConsistent : {s : System} → Steps start s → IsConsistent s
Steps-IsConsistent here = ground arith
Steps-IsConsistent (next r st) = Step-IsConsistent st (Steps-IsConsistent r)

-- In every reachable state in which the module is gone, its handler has run to its end exactly once,
-- and is neither queued nor running.
pub work_done : {s : System} → Steps start s → s.stage ≡ gone → (s.completed ≡ 1) × (s.work ≡ idle)
work_done r at = ground (arith, Steps-IsConsistent r)

-- Unloading is never stuck: from every reachable state in which the module is loaded, a state can be
-- reached in which it is gone.
pub unloads :
    {s : System} → Steps start s → s.stage ≡ loaded → (t : System) × Steps s t × (t.stage ≡ gone)
unloads {s} r at = from s.work refl
  where
    from : (w : Work) → s.work ≡ w → (t : System) × Steps s t × (t.stage ≡ gone)
    from idle e = (_, next here (flush_work at e), refl)
    from queued e = (
      _,
      next (next (next here (handler_starts e)) (handler_ends refl)) (flush_work at refl),
      refl,
    )
    from running e = (_, next (next here (handler_ends e)) (flush_work at refl), refl)
