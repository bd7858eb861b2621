-- ===== src/Signals/Handlers.antt =====
-- asm_4/ex_1/ex_1.c, "asm_5 /Ex_1/ex_1.c" and "asm_5 /Ex_1/ex_1_expand.c": programs that install
-- handlers, and then wait for ever. Each is run on the list of the signals that the kernel delivers
-- to it, one after the other. The numbers of the signals, and whether a signal with no handler ends
-- the process, are the system's: parameters.
mod Ends
use linux_assignment.Prelude.{
  ℕ, List, [], ◌∷◌, ◌++◌, Bool, ◌||◌, Option, none, some, ◌==◌, if◌then◌else◌, ℤ, pos,
}

pub data End : Type 0 where
  waiting : End  -- in the endless loop
  exited : (status : ℕ) → End
  killed : End

-- what a signal makes the process do, with the messages that it prints
pub data Reaction (M : Type 0) : Type 0 where
  goes_on : List M → Reaction M
  exits : List M → (status : ℕ) → Reaction M
  kills : Reaction M

-- `while (1)` around `pause` or `sleep`
pub wait_loop : {S M : Type 0} → (S → Reaction M) → List S → List M × End
wait_loop react [] = ([], waiting)
wait_loop react (sig ∷ sigs) =
    let rest = wait_loop react sigs in
    elim (react sig) [
      | goes_on ms ↦ (ms ++ rest.0, rest.1)
      | exits ms status ↦ (ms, exited status)
      | kills ↦ ([], killed)
    ]

-- a signal that has no handler
pub by_default : {M : Type 0} → (deadly : Bool) → Reaction M
by_default deadly = if deadly then kills else goes_on []

pub record UserSignals : Type 0 where
  pub sigusr1 : ℕ
  pub sigusr2 : ℕ

-- the messages of asm_4/ex_1/ex_1.c
pub data Message : Type 0 where
  no_usr1_handler : Message
  no_usr2_handler : Message
  process_pid : Message
  hello : Message
  exiting : Message

pub signal_handler : UserSignals → ℕ → Reaction Message
signal_handler n signum =
    if signum == n.sigusr1
    then goes_on (hello ∷ [])
    else if signum == n.sigusr2
    then exits (exiting ∷ []) 0
    else goes_on []

pub react : UserSignals → (deadly : ℕ → Bool) → ℕ → Reaction Message
react n deadly sig =
    if (sig == n.sigusr1) || (sig == n.sigusr2)
    then signal_handler n sig
    else by_default (deadly sig)

-- `main`, with whether each of its calls of `signal` succeeds
pub main : UserSignals → (deadly : ℕ → Bool) → (usr1 usr2 : Bool) → List ℕ → List Message × End
main n deadly usr1 usr2 sigs =
    let run = wait_loop (react n deadly) sigs in
    if usr1
    then if usr2 then (process_pid ∷ run.0, run.1) else (no_usr2_handler ∷ [], exited 1)
    else (no_usr1_handler ∷ [], exited 1)

-- a signal, with what the kernel says of its sender
pub record Sent : Type 0 where
  pub number : ℕ
  pub si_pid : ℕ
  pub si_code : ℤ
  pub si_uid : ℕ

pub data Line : Type 0 where
  receiving : ℕ → Line
  sent_by_pid : ℕ → Line
  signal_code : ℤ → Line
  user_of_sender : ℕ → Line

-- `handle_sigaction` of ex_1.c and of ex_1_expand.c
pub handle_sigaction : Sent → List Line
handle_sigaction sig = receiving sig.number ∷ []

pub handle_sigaction_expand : Sent → List Line
handle_sigaction_expand sig =
    receiving sig.number
    ∷ sent_by_pid sig.si_pid
    ∷ signal_code sig.si_code
    ∷ user_of_sender sig.si_uid
    ∷ []

-- `main` of both, once its handler is installed
pub on_sigint :
    (sigint : ℕ) → (deadly : ℕ → Bool) → (Sent → List Line) → List Sent → List Line × End
on_sigint sigint deadly handler =
    wait_loop (λ sig.
      if sig.number == sigint then goes_on (handler sig) else by_default (deadly sig.number))
