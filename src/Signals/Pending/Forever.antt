-- ===== src/Signals/Pending/Forever.antt =====
-- "asm_5 /Ex_3/ex_3.c": SIGINT does not end the loop that says it waits for SIGINT.
use linux_assignment.Prelude.{ℕ, ◌≡◌, ◌≢◌, ◌⊎◌, inl, inr, refl, true, arith}
use linux_assignment.Signals.Masks.{SignalNumbers}
use linux_assignment.Signals.Pending.{
  blocking, killed, Process, start, Step, block, sleep_returns, check, sigpending_fails, turn, kept,
  delivered, ignored, Steps, here, next,
}

module _ (n : SignalNumbers) where
  -- Only SIGINT is ever blocked, or pending; after `blocking` it is blocked.
  record IsBlocked (s : Process) : Type 0 where
    only : (sig : ℕ) → s.mask sig ≡ true → sig ≡ n.sigint
    waits : (sig : ℕ) → s.pending sig ≡ true → sig ≡ n.sigint
    stays : (s.stage ≡ blocking) ⊎ ((s.stage ≡ killed) ⊎ (s.mask n.sigint ≡ true))

  Step-IsBlocked : {s t : Process} → Step n s t → IsBlocked s → IsBlocked t
  Step-IsBlocked (block at) b = record {
    only = λ sig m. ground (arith, b.only sig);
    waits = b.waits;
    stays = ground arith;
  }
  Step-IsBlocked (sleep_returns at) b = record {
    only = b.only;
    waits = b.waits;
    stays = ground (arith, b.stays);
  }
  Step-IsBlocked (check at) b = record {
    only = b.only;
    waits = b.waits;
    stays = ground (arith, b.stays);
  }
  Step-IsBlocked (sigpending_fails at) b = record {
    only = b.only;
    waits = b.waits;
    stays = ground (arith, b.stays);
  }
  Step-IsBlocked (turn at) b = b
  Step-IsBlocked (kept x live m) b = record {
    only = b.only;
    waits = λ sig p. ground (arith, b.waits sig, b.only x m);
    stays = b.stays;
  }
  Step-IsBlocked (delivered x live m) b = record {
    only = b.only;
    waits = b.waits;
    stays = inr (inl refl);
  }
  Step-IsBlocked (ignored x live m) b = b

  Steps-IsBlocked : {s : Process} → Steps n start s → IsBlocked s
  Steps-IsBlocked here = record {
    only = λ sig m. ground arith;
    waits = λ sig p. ground arith;
    stays = inl refl;
  }
  Steps-IsBlocked (next r st) = Step-IsBlocked st (Steps-IsBlocked r)

  -- In every reachable state that is past the first call and was not killed, SIGINT is blocked, so no
  -- SIGINT ends the last loop; and SIGINT is the only signal that is ever pending, which the message
  -- about what is pending takes for granted.
  pub sigint_kept :
      {s : Process}
      → Steps n start s
      → s.stage ≢ blocking
      → s.stage ≢ killed
      → (s.mask n.sigint ≡ true) × ((sig : ℕ) → s.pending sig ≡ true → sig ≡ n.sigint)
  sigint_kept r past alive = let b = Steps-IsBlocked r in (ground (arith, b.stays), b.waits)
