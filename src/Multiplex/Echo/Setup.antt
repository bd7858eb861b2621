-- ===== src/Multiplex/Echo/Setup.antt =====
-- asm_4/ex_3_socketpair/ex_3.c before its loop, and the loop on the descriptors that are watched. What
-- the calls return is the system's: a parameter. As documented, `epoll_ctl` fails for a descriptor
-- that cannot be watched, such as a regular file, and `epoll_wait` reports only descriptors that
-- were added.
pub mod Silent
mod Tests
use linux_assignment.Prelude.{
  ℕ, ◌≡◌, ◌≢◌, List, [], ◌∷◌, Bool, true, false, not, ℤ, is_neg, if◌then◌else◌, All,
}
use linux_assignment.Multiplex.Echo.{
  Fd, stdin, socket, Stage, waiting, handling, System, start, IsReady, Typing, Step,
}

-- what each call returns, in the order of the calls
pub record Answers : Type 0 where
  pub epoll_create1 : ℤ
  pub socketpair : ℤ
  pub epoll_ctl : Fd → ℤ

-- EXIT_FAILURE
abbrev pub exit_failure : ℕ
exit_failure = 1

-- How `main` goes on: it exits, or enters the loop with some descriptors watched.
pub data Setup : Type 0 where
  exits : (status : ℕ) → Setup
  enters : (watched : Fd → Bool) → Setup

-- what `epoll_ctl` returns is not looked at
unfoldable pub set_up : Answers → Setup
set_up a =
    if is_neg a.epoll_create1
    then exits exit_failure
    else if is_neg a.socketpair
    then exits exit_failure
    else enters (λ fd. not (is_neg (a.epoll_ctl fd)))

abbrev pub AreWatched : (Fd → Bool) → Stage → Type 0
AreWatched watched (handling events) = All (λ fd. watched fd ≡ true) events
AreWatched watched _ = Unit

-- The steps of the loop, where only some of the descriptors are watched.
pub data WatchedStep (watched : Fd → Bool) (room : ℕ) (s : System) : System → Type 0 where
  steps : {t : System} → Step room s t → AreWatched watched t.stage → WatchedStep watched room s t
  epoll_socket_only :
      s.stage ≡ waiting
      → s.queue ≢ []
      → watched socket ≡ true
      → watched stdin ≡ false
      → WatchedStep watched room s (record s { stage = handling (socket ∷ []) })
  epoll_stdin_only :
      s.stage ≡ waiting
      → IsReady s
      → watched stdin ≡ true
      → watched socket ≡ false
      → WatchedStep watched room s (record s { stage = handling (stdin ∷ []) })

pub data WatchedReach (watched : Fd → Bool) (room : ℕ) : System → Type 0 where
  started : WatchedReach watched room start
  then_step :
      {s t : System}
      → WatchedReach watched room s
      → WatchedStep watched room s t
      → WatchedReach watched room t
  then_typing :
      {s t : System} → WatchedReach watched room s → Typing s t → WatchedReach watched room t
