-- ===== src/Deferred/Tasklet/Unload.antt =====
-- What asm_4/tasklet/tasklet.c keeps while it is loaded, and what it leaves behind.
use linux_assignment.Prelude.{
  ℕ, ◌+◌, ◌≤◌, ◌≡◌, ◌⊎◌, inl, inr, refl, Bool, true, false, Bool-cases, if◌then◌else◌, arith,
}
use linux_assignment.Deferred.Tasklet.{
  Stage, unloaded, initialised, refused, loaded, killed, gone, System, start, interrupt_handler,
  tasklet_work, Step, tasklet_init, request_irq, request_refused, interrupt, run, tasklet_kill,
  free_irq, Steps, here, next,
}

-- whether `my_init` has succeeded and `free_irq` has not been called
abbrev pub is_registered : Stage → Bool
is_registered loaded = true
is_registered killed = true
is_registered _ = false

-- the stages with no interrupt so far
abbrev pub is_quiet : Stage → Bool
is_quiet unloaded = true
is_quiet initialised = true
is_quiet (refused ret) = true
is_quiet _ = false

abbrev pub pending : Bool → ℕ
pending b = if b then 1 else 0

pub record IsConsistent (s : System) : Type 0 where
  pub handler : s.registered ≡ is_registered s.stage
  pub counted : s.runs + pending s.scheduled ≤ s.interrupts
  pub quiet : is_quiet s.stage ≡ true → s.interrupts ≡ 0

Step-IsConsistent : {s t : System} → Step s t → IsConsistent s → IsConsistent t
unfolding interrupt_handler tasklet_work
Step-IsConsistent (tasklet_init at) c = ground arith
Step-IsConsistent (request_irq at) c = ground arith
Step-IsConsistent (request_refused e at) c = ground arith
Step-IsConsistent (interrupt on) c = ground arith
Step-IsConsistent (run on) c = ground arith
Step-IsConsistent (tasklet_kill at off) c = ground arith
Step-IsConsistent (free_irq at) c = ground arith

Steps-IsConsistent : {s t : System} → Steps s t → IsConsistent s → IsConsistent t
Steps-IsConsistent here c = c
Steps-IsConsistent (next r st) c = Step-IsConsistent st (Steps-IsConsistent r c)

start-IsConsistent : IsConsistent start
start-IsConsistent = ground arith

-- In every reachable state the handler is registered exactly from a successful `my_init` to
-- `free_irq`, the tasklet has run at most once for each interrupt, and with a module that is not
-- loaded yet, or was refused, nothing has run and nothing is scheduled.
pub tasklet_kept :
    {s : System}
    → Steps start s
    → (s.registered ≡ is_registered s.stage)
      × (s.runs + pending s.scheduled ≤ s.interrupts)
      × ((is_quiet s.stage ≡ false) ⊎ ((s.runs ≡ 0) × (s.scheduled ≡ false)))
tasklet_kept r = ground (arith, Steps-IsConsistent r start-IsConsistent)

-- The kernel runs what is scheduled.
settled :
    {s : System}
    → s.stage ≡ loaded
    → (t : System) × Steps s t × (t.stage ≡ loaded) × (t.scheduled ≡ false)
unfolding tasklet_work
settled {s} at = elim (Bool-cases s.scheduled) [
  | inl on ↦ (_, next here (run on), at, refl)
  | inr off ↦ (s, here, at, off)
]

-- From every reachable state in which the module is loaded, a state can be reached in which the
-- module is gone and the tasklet is scheduled.
pub left_behind :
    {s : System}
    → Steps start s
    → s.stage ≡ loaded
    → (t : System) × Steps s t × (t.stage ≡ gone) × (t.scheduled ≡ true)
unfolding interrupt_handler
left_behind r at =
    let (t, run_out, still, off) = settled at in
    let on = (Steps-IsConsistent run_out (Steps-IsConsistent r start-IsConsistent)).handler in
    (
      _,
      next (next (next run_out (tasklet_kill still off)) (interrupt (ground (arith, on))))
          (free_irq refl),
      refl,
      refl,
    )
