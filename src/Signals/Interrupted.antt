-- ===== src/Signals/Interrupted.antt =====
-- asm_6/ex_3/ex_3.c: thirty rounds that SIGINT interrupts. A step is one call of `main`, or a SIGINT
-- that comes; before its handler is installed SIGINT kills the process, as documented.
pub mod Messages
pub mod Ends
mod Tests
use linux_assignment.Prelude.{ℕ, ◌+◌, ◌≤◌, ◌<◌, ◌≡◌, List, [], ◌∷◌, ◌++◌}

abbrev pub rounds : ℕ
rounds = 30

pub data Stage : Type 0 where
  installing : Stage  -- before `signal`
  first_line : Stage
  head : (i : ℕ) → Stage  -- at the test of the loop
  asleep : (i : ℕ) → Stage
  ending : Stage  -- after the last message
  exited : (status : ℕ) → Stage
  killed : Stage

pub data Message : Type 0 where
  starting : Message
  working : (i : ℕ) → Message
  interrupted : Message
  completed : Message

-- the messages stand in the order in which they are printed
pub record System : Type 0 where
  pub stage : Stage
  pub printed : List Message

abbrev pub start : System
start = record { stage = installing; printed = [] }

-- whether `signal_handler` would be called
abbrev pub Handles : Stage → Type 0
Handles first_line = Unit
Handles (head i) = Unit
Handles (asleep i) = Unit
Handles ending = Unit
Handles _ = ⊥

pub data Step (s : System) : System → Type 0 where
  installs : s.stage ≡ installing → Step s (record s { stage = first_line })
  starts :
      s.stage ≡ first_line
      → Step s (record { stage = head 1; printed = s.printed ++ starting ∷ [] })
  works :
      (i : ℕ)
      → s.stage ≡ head i
      → i ≤ rounds
      → Step s (record { stage = asleep i; printed = s.printed ++ working i ∷ [] })
  sleep_returns : (i : ℕ) → s.stage ≡ asleep i → Step s (record s { stage = head (i + 1) })
  completes :
      (i : ℕ)
      → s.stage ≡ head i
      → rounds < i
      → Step s (record { stage = ending; printed = s.printed ++ completed ∷ [] })
  returns : s.stage ≡ ending → Step s (record s { stage = exited 0 })
  interrupts :
      Handles s.stage
      → Step s (record { stage = exited 0; printed = s.printed ++ interrupted ∷ [] })
  sigint_kills : s.stage ≡ installing → Step s (record s { stage = killed })

pub data Steps (s : System) : System → Type 0 where
  here : Steps s s
  next : {t v : System} → Steps s t → Step t v → Steps s v
