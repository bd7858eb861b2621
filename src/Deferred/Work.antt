-- ===== src/Deferred/Work.antt =====
-- asm_4/workqueue/workqueue.c: one work item, queued when the module is loaded. A step is one call of
-- the module, or the kernel's start or end of a call of `test_work_handler`. As documented,
-- `schedule_work` queues an item that is not queued, and `flush_work` returns when it is neither queued
-- nor running.
pub mod Flush
use linux_assignment.Prelude.{ℕ, ◌+◌, ◌≡◌}

pub data Stage : Type 0 where
  unloaded : Stage  -- before `test_wq_init`
  initialised : Stage  -- after `INIT_WORK`
  loaded : Stage  -- `test_wq_init` has returned
  gone : Stage  -- `test_wq_exit` has returned

pub data Work : Type 0 where
  idle : Work
  queued : Work
  running : Work

-- `completed` counts the calls of `test_work_handler` that have returned.
pub record System : Type 0 where
  pub stage : Stage
  pub work : Work
  pub completed : ℕ

abbrev pub start : System
start = record { stage = unloaded; work = idle; completed = 0 }

pub data Step (s : System) : System → Type 0 where
  init_work : s.stage ≡ unloaded → Step s (record s { stage = initialised })
  schedule_work : s.stage ≡ initialised → Step s (record s { stage = loaded; work = queued })
  handler_starts : s.work ≡ queued → Step s (record s { work = running })
  handler_ends : s.work ≡ running → Step s (record s { work = idle; completed = s.completed + 1 })
  flush_work : s.stage ≡ loaded → s.work ≡ idle → Step s (record s { stage = gone })

pub data Steps (s : System) : System → Type 0 where
  here : Steps s s
  next : {t v : System} → Steps s t → Step t v → Steps s v
