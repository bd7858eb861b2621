-- ===== src/Processes/Segment/Kept.antt =====
-- The segment and the semaphore of asm_8/ex_3 from step to step.
use linux_assignment.Prelude.{
  ℕ, ◌+◌, ◌≤◌, ◌≡◌, ◌≢◌, arith, List, Option, none, Bool, true, false, Option-cases,
}
use linux_assignment.Processes.Segment.{
  Writer, begin, with_segment, posted, Reader, removed, finished, failed, System, start, value_of,
  Step, w_shmget, w_semget, w_setval, w_shmat, w_fgets, w_cut, w_semop, w_fail, r_shmget, r_semget,
  r_semop, r_print, r_remove_segment, r_remove_semaphore, r_fail, Steps, here, next,
}
use linux_assignment.Processes.Segment.Delivery.{has_posted, has_passed}

abbrev pub has_segment : Writer → Bool
has_segment begin = false
has_segment failed = false
has_segment _ = true

abbrev pub has_semaphore : Writer → Bool
has_semaphore begin = false
has_semaphore with_segment = false
has_semaphore failed = false
has_semaphore _ = true

-- whether the reader has removed the segment, and the semaphore
abbrev pub no_segment : Reader → Bool
no_segment (removed text) = true
no_segment (finished text) = true
no_segment _ = false

abbrev pub no_semaphore : Reader → Bool
no_semaphore (finished text) = true
no_semaphore _ = false

pub record IsThere (s : System) : Type 0 where
  pub segment : has_segment s.writer ≡ true → no_segment s.reader ≡ false → s.segment ≢ none
  pub semaphore : has_semaphore s.writer ≡ true → no_semaphore s.reader ≡ false → s.semaphore ≢ none
  pub tokens : value_of s.semaphore + has_passed s.reader ≤ has_posted s.writer
  pub token : s.writer ≡ posted → s.reader ≢ failed → value_of s.semaphore + has_passed s.reader ≡ 1

pub Step-IsThere : {input : Option (List ℕ)} {s t : System} → Step input s t → IsThere s → IsThere t
Step-IsThere {s = s} (w_shmget at) o = ground (arith, Option-cases s.segment)
Step-IsThere {s = s} (w_semget at) o = ground (arith, Option-cases s.semaphore)
Step-IsThere {s = s} (w_setval v at e) o = ground arith
Step-IsThere {s = s} (w_shmat x at e) o = ground arith
Step-IsThere {s = s} (w_fgets at) o = ground (arith, Option-cases s.segment)
Step-IsThere {s = s} (w_cut at) o = ground (arith, Option-cases s.segment)
Step-IsThere {s = s} (w_semop v at e) o = ground arith
Step-IsThere {s = s} (w_fail may) o = ground arith
Step-IsThere {s = s} (r_shmget x at e) o = ground arith
Step-IsThere {s = s} (r_semget v at e) o = ground arith
Step-IsThere {s = s} (r_semop v at e) o = ground arith
Step-IsThere {s = s} (r_print x at e) o = ground arith
Step-IsThere {s = s} (r_remove_segment x at) o = ground arith
Step-IsThere {s = s} (r_remove_semaphore x at) o = ground arith
Step-IsThere {s = s} (r_fail may) o = ground arith

pub start-IsThere :
    {segment : Option (List ℕ)} {semaphore : Option ℕ}
    → value_of semaphore ≡ 0
    → IsThere (start segment semaphore)
start-IsThere clean = ground arith

pub Steps-IsThere :
    {input : Option (List ℕ)} {s t : System} → Steps input s t → IsThere s → IsThere t
Steps-IsThere here o = o
Steps-IsThere (next r st) o = Step-IsThere st (Steps-IsThere r o)
