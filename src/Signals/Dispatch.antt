-- ===== src/Signals/Dispatch.antt =====
-- The handlers of asm_5 /Ex_5/ex_5.c. Signal numbers, and the macros that read the status of
-- `waitpid`, are of the C library: parameters.
pub mod Laws
use linux_assignment.Prelude.{
  ℕ, zero, suc, ◌+◌, List, [], ◌∷◌, Bool, Option, none, some, ◌==◌, if◌then◌else◌, ℤ, pos, negsuc,
}

-- the entries of `handler_list`
pub data Handler : Type 0 where
  sigint_handler : Handler
  sigusr1_handler : Handler
  handle_sigchld : Handler

abbrev pub handler_list : List Handler
handler_list = sigint_handler ∷ sigusr1_handler ∷ handle_sigchld ∷ []

pub record SignalNumbers : Type 0 where
  pub sigint : ℕ
  pub sigusr1 : ℕ
  pub sigchld : ℕ

abbrev pub signal_list : SignalNumbers → List ℕ
signal_list n = n.sigint ∷ n.sigusr1 ∷ n.sigchld ∷ []

-- The loop of `functionCallHandler` over both lists; `none` is its message that there is no handler.
pub find_handler : ℕ → List ℕ → List Handler → Option Handler
find_handler sig [] hs = none
find_handler sig (n ∷ ns) [] = none
find_handler sig (n ∷ ns) (h ∷ hs) = if sig == n then some h else find_handler sig ns hs

pub function_call_handler : SignalNumbers → ℕ → Option Handler
unfolding find_handler
function_call_handler n sig = find_handler sig (signal_list n) handler_list

pub record StatusMacros : Type 0 where
  pub wif_exited : ℕ → Bool
  pub wif_stopped : ℕ → Bool
  pub wif_continued : ℕ → Bool
  pub wexit_status : ℕ → ℕ
  pub wstop_sig : ℕ → ℕ

-- the messages of `handle_sigchld`, with the process number
pub data Message : Type 0 where
  exited : ℕ → ℕ → Message
  stopped : ℕ → ℕ → Message
  continued : ℕ → Message
  abnormal : ℕ → Message

module _ (w : StatusMacros) where
  pub report : ℕ → ℕ → Message
  report pid status =
      if w.wif_exited status
      then exited pid (w.wexit_status status)
      else if w.wif_stopped status
      then stopped pid (w.wstop_sig status)
      else if w.wif_continued status
      then continued pid
      else abnormal pid

  -- `handle_sigchld`, given what `waitpid` returns and stores call by call: the messages, and the
  -- answers that it leaves. It stops at an answer that is not positive.
  pub reap : List (ℤ × ℕ) → List Message × List (ℤ × ℕ)
  reap [] = ([], [])
  reap ((negsuc n, status) ∷ answers) = ([], answers)
  reap ((pos zero, status) ∷ answers) = ([], answers)
  reap ((pos (suc n), status) ∷ answers) =
      let (messages, rest) = reap answers in (report (suc n) status ∷ messages, rest)

-- What a child of `main` does.
pub data Action : Type 0 where
  sleep : ℕ → Action
  raise_stop : Action
  raise_usr1 : Action
  exit : ℕ → Action

unfoldable pub child : ℕ → List Action
child i =
    sleep (3 + i)
    ∷ (if i == 0
        then raise_stop ∷ raise_usr1 ∷ exit (10 + i) ∷ []
        else raise_usr1 ∷ exit (10 + i) ∷ [])
