-- ===== src/Processes/Queue/Tests.antt =====
-- The theorem on "asm_5 /message_queue" for a receiver, then the sender, then two receivers.
use linux_assignment.Prelude.{[], ◌∷◌, List, All}
use linux_assignment.Processes.Queue.{Run, sender, receiver, runs}
use linux_assignment.Processes.Queue.Cut.{IsCut, never_whole}

abbrev four_runs : List Run
four_runs = receiver ∷ sender 100 ∷ receiver ∷ receiver ∷ []

never_whole_example : All IsCut (runs four_runs []).0
never_whole_example = never_whole four_runs
