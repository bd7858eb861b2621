-- ===== src/Signals/Handlers/Ends.antt =====
-- How asm_4/ex_1/ex_1.c ends.
use linux_assignment.Prelude.{
  ℕ, List, [], ◌∷◌, ◌++◌, Bool, true, false, ◌==◌, if◌then◌else◌, ◌≡◌, ◌≢◌, ◌⊎◌, refl, arith, All,
}
use linux_assignment.Signals.Handlers.{
  exited, Reaction, goes_on, exits, wait_loop, by_default, UserSignals, Message, process_pid, hello,
  exiting, signal_handler, react, main, Sent, Line, on_sigint, waiting,
}

-- one line for each SIGUSR1
abbrev pub hellos : UserSignals → List ℕ → List Message
hellos n [] = []
hellos n (sig ∷ sigs) = if sig == n.sigusr1 then hello ∷ hellos n sigs else hellos n sigs

module _ (n : UserSignals) (deadly : ℕ → Bool) where
  -- a signal that the process survives
  abbrev pub IsHarmless : ℕ → Type 0
  IsHarmless sig = (sig ≢ n.sigusr2) × ((sig ≡ n.sigusr1) ⊎ (deadly sig ≡ false))

  abbrev pub react_harmless : ℕ → Reaction Message
  react_harmless sig = goes_on (if sig == n.sigusr1 then hello ∷ [] else [])

  react_harmless_lem : (sig : ℕ) → IsHarmless sig → react n deadly sig ≡ react_harmless sig
  unfolding react signal_handler by_default
  react_harmless_lem sig h = ground arith

  react-usr2 : n.sigusr1 ≢ n.sigusr2 → react n deadly n.sigusr2 ≡ exits (exiting ∷ []) 0
  unfolding react signal_handler
  react-usr2 ne = ground arith

  wait_loop-harmless :
      (sigs after : List ℕ)
      → n.sigusr1 ≢ n.sigusr2
      → All IsHarmless sigs
      → wait_loop (react n deadly) (sigs ++ n.sigusr2 ∷ after)
        ≡ (hellos n sigs ++ exiting ∷ [], exited 0)
  unfolding wait_loop
  wait_loop-harmless [] after ne h = rw (wait_loop, react-usr2 ne)
  wait_loop-harmless (sig ∷ sigs) after ne (h, hs) =
      rw (wait_loop, react_harmless_lem sig h, wait_loop-harmless sigs after ne hs) (ground arith)

-- Where both handlers are installed, and every signal before the first SIGUSR2 is a SIGUSR1 or one
-- that does not end a process, main prints one line for each SIGUSR1 before it and the last message,
-- and exits with 0, whatever comes behind.
pub exits_at_usr2 :
    (n : UserSignals) (deadly : ℕ → Bool) (sigs after : List ℕ)
    → n.sigusr1 ≢ n.sigusr2
    → All (IsHarmless n deadly) sigs
    → main n deadly true true (sigs ++ n.sigusr2 ∷ after)
      ≡ (process_pid ∷ (hellos n sigs ++ exiting ∷ []), exited 0)
unfolding main
exits_at_usr2 n deadly sigs after ne h = rw (wait_loop-harmless n deadly sigs after ne h)

-- what both programs of asm_5 print for the signals that come
abbrev pub lines : (sigint : ℕ) → (Sent → List Line) → List Sent → List Line
lines sigint handler [] = []
lines sigint handler (sig ∷ sigs) =
    if sig.number == sigint
    then handler sig ++ lines sigint handler sigs
    else lines sigint handler sigs

-- As long as no signal comes that ends the process, both wait on, and every SIGINT is printed.
pub on_sigint-waits :
    (sigint : ℕ) (deadly : ℕ → Bool) (handler : Sent → List Line) (sigs : List Sent)
    → All (λ sig. (sig.number ≡ sigint) ⊎ (deadly sig.number ≡ false)) sigs
    → on_sigint sigint deadly handler sigs ≡ (lines sigint handler sigs, waiting)
unfolding on_sigint wait_loop by_default
on_sigint-waits sigint deadly handler [] h = refl
on_sigint-waits sigint deadly handler (sig ∷ sigs) (h, hs) =
    ground (arith, on_sigint-waits sigint deadly handler sigs hs)
