-- ===== src/Processes/Segment/Tests.antt =====
-- The theorems on asm_8/ex_3 at runs of both programs.
use linux_assignment.Prelude.{ℕ, ◌≡◌, refl, List, [], ◌∷◌, Option, none, some}
use linux_assignment.Processes.Segment.{
  finished, fgets, posted, System, start, Steps, here, next, w_shmget, w_semget, w_setval, w_shmat,
  w_fgets, w_cut, w_semop, r_shmget, r_semget, r_semop, r_print,
}
use linux_assignment.Processes.Segment.Delivery.{IsFirstLine, prints_message}
use linux_assignment.Processes.Segment.Finish.{can_finish}

-- "hi" and the newline
abbrev typed : Option (List ℕ)
typed = some (104 ∷ 105 ∷ 10 ∷ [])

abbrev hi : List ℕ
hi = 104 ∷ 105 ∷ []

-- The reader starts as soon as the semaphore is there.
abbrev read : (s : System) × Steps typed (start none none) s
read = (
  _,
  next
      (next
        (next
          (next
            (next
              (next
                (next
                  (next
                    (next (next (next here (w_shmget refl)) (w_semget refl))
                      (r_shmget [] refl refl))
                    (r_semget 0 refl refl))
                  (w_setval 0 refl refl))
                (w_shmat [] refl refl))
              (w_fgets refl))
            (w_cut refl))
          (w_semop 0 refl refl))
        (r_semop 0 refl refl))
      (r_print hi refl refl),
)

prints_message_example : IsFirstLine hi (fgets typed []) × (read.0.writer ≡ posted)
prints_message_example = prints_message hi refl read.1 refl

-- The writer has both, the reader the segment.
abbrev begun : (s : System) × Steps typed (start none none) s
begun = (_, next (next (next here (w_shmget refl)) (w_semget refl)) (r_shmget [] refl refl))

can_finish_example :
    (t : System) × (text : List ℕ) × Steps typed begun.0 t
    × (t.reader ≡ finished text)
    × (t.writer ≡ posted)
    × IsFirstLine text (fgets typed [])
can_finish_example = can_finish refl begun.1 (λ e. cc) (λ e. cc)
