-- ===== src/Multiplex/Echo/Setup/Tests.antt =====
-- asm_4/ex_3_socketpair/ex_3.c where standard input is a regular file with one line.
use linux_assignment.Prelude.{◌≡◌, ◌⊎◌, ◌∷◌, [], Bool, not, pos, negsuc, is_neg, refl}
use linux_assignment.Multiplex.Echo.{
  Fd, stdin, socket, waiting, broken, System, type_in, end_input, epoll_fails,
}
use linux_assignment.Multiplex.Echo.Setup.{
  Answers, enters, set_up, steps, WatchedReach, started, then_step, then_typing,
}
use linux_assignment.Multiplex.Echo.Setup.Silent.{silent}

-- EPERM for the file
abbrev answers : Answers
answers = record {
  epoll_create1 = pos 3;
  socketpair = pos 0;
  epoll_ctl = λ fd. elim fd [ stdin ↦ negsuc 0 | socket ↦ pos 0 ];
}

abbrev watched : Fd → Bool
watched = λ fd. not (is_neg (answers.epoll_ctl fd))

abbrev line_typed : (s : System) × WatchedReach watched 4096 s
line_typed = (
  _,
  then_step (then_typing (then_typing started (type_in (104 ∷ 10 ∷ []) refl)) end_input)
      (steps (epoll_fails refl) tt),
)

silent_example :
    (set_up answers ≡ enters watched)
    × ((line_typed.0.stage ≡ waiting) ⊎ (line_typed.0.stage ≡ broken))
    × (line_typed.0.typed ≡ [])
    × (line_typed.0.received ≡ [])
    × (line_typed.0.printed ≡ [])
silent_example = silent answers 4096 refl refl refl line_typed.1
