-- ===== src/Signals/Dispatch/Laws.antt =====
-- Which handler of asm_5 /Ex_5/ex_5.c a signal reaches, and what is reported of the children.
use linux_assignment.Prelude.{
  ℕ, suc, ◌≡◌, ◌≢◌, ◌↔◌, refl, List, [], ◌∷◌, ◌++◌, arith, none, some, ℤ, pos, negsuc,
}
use linux_assignment.Signals.Dispatch.{
  sigint_handler, sigusr1_handler, handle_sigchld, SignalNumbers, function_call_handler,
  StatusMacros, Message, report, reap,
}

-- Where the three signal numbers differ, each signal of the table reaches its own handler, and a
-- signal reaches none exactly when it is not in the table.
pub function_call_handler_lem :
    (n : SignalNumbers) (sig : ℕ)
    → n.sigint ≢ n.sigusr1
    → n.sigint ≢ n.sigchld
    → n.sigusr1 ≢ n.sigchld
    → (function_call_handler n n.sigint ≡ some sigint_handler)
      × (function_call_handler n n.sigusr1 ≡ some sigusr1_handler)
      × (function_call_handler n n.sigchld ≡ some handle_sigchld)
      × ((function_call_handler n sig ≡ none)
          ↔ ((sig ≢ n.sigint) × (sig ≢ n.sigusr1) × (sig ≢ n.sigchld)))
unfolding function_call_handler
function_call_handler_lem n sig a b c =
    (ground arith, ground arith, ground arith, (λ h. ground arith, λ h. ground arith))

-- answers of `waitpid` that report changes of children
abbrev pub changes : List (ℕ × ℕ) → List (ℤ × ℕ)
changes [] = []
changes ((n, status) ∷ cs) = (pos (suc n), status) ∷ changes cs

abbrev pub reports : StatusMacros → List (ℕ × ℕ) → List Message
reports w [] = []
reports w ((n, status) ∷ cs) = report w (suc n) status ∷ reports w cs

-- One signal reports every change that `waitpid` tells before its first answer that is not positive,
-- in order and once each, and asks no further.
pub reap-changes :
    (w : StatusMacros) (cs : List (ℕ × ℕ)) (status : ℕ) (rest : List (ℤ × ℕ))
    → (reap w (changes cs ++ ((pos 0, status) ∷ rest)) ≡ (reports w cs, rest))
      × ((e : ℕ) → reap w (changes cs ++ ((negsuc e, status) ∷ rest)) ≡ (reports w cs, rest))
unfolding reap
reap-changes w [] status rest = (refl, λ e. refl)
reap-changes w ((n, s) ∷ cs) status rest =
    let ih = reap-changes w cs status rest in (rw ih.0, λ e. rw (ih.1 e))
