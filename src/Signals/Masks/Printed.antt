-- ===== src/Signals/Masks/Printed.antt =====
-- "asm_5 /Ex_2/ex_2.c": which signals printSignalMask prints, and that unblocking undoes blocking.
use linux_assignment.Prelude.{
  ℕ, zero, suc, ◌+◌, ◌-◌, ◌≤◌, ◌<◌, ◌≡◌, ◌↔◌, ◌⊎◌, refl, List, [], ◌∷◌, true, false, ◌||◌, arith,
}
use linux_assignment.Signals.Masks.{
  SignalNumbers, signals_to_block, Sigset, sigemptyset, sigaddset, add_all, block_signal,
  unblock_signal, members, print_signal_mask, is_in,
}

pub add_all-member :
    (xs : List ℕ) (set : Sigset) (sig : ℕ) → add_all xs set sig ≡ (is_in sig xs || set sig)
unfolding add_all
add_all-member [] set sig = refl
add_all-member (x ∷ xs) set sig = ground (arith, add_all-member xs (sigaddset set x) sig)

members-member :
    (n : SignalNumbers) (count lo : ℕ) (mask : Sigset) (sig : ℕ)
    → (is_in sig (members n count lo mask) ≡ true)
      ↔ ((lo ≤ sig) × (sig < lo + count) × (mask sig ≡ true))
unfolding members
members-member n zero lo mask sig = ground arith
members-member n (suc count) lo mask sig = ground (arith, members-member n count (lo + 1) mask sig)

-- After blockSignal, printSignalMask prints exactly the signals from 1 up to, and without, NSIG that
-- were blocked before or are one of the three.
pub printed_lem :
    (n : SignalNumbers) (mask : Sigset) (sig : ℕ)
    → (is_in sig (print_signal_mask n (block_signal n mask)) ≡ true)
      ↔ ((1 ≤ sig) × (sig < n.nsig) × ((mask sig ≡ true) ⊎ (is_in sig (signals_to_block n) ≡ true)))
unfolding print_signal_mask block_signal
printed_lem n mask sig = ground (
  arith,
  members-member n (n.nsig - 1) 1 (block_signal n mask) sig,
  add_all-member (signals_to_block n) sigemptyset sig,
)

-- Where none of the three was blocked before, unblocking after blocking gives the old mask back.
pub unblock-block :
    (n : SignalNumbers) (mask : Sigset) (sig : ℕ)
    → (is_in sig (signals_to_block n) ≡ true → mask sig ≡ false)
    → unblock_signal n (block_signal n mask) sig ≡ mask sig
unfolding unblock_signal block_signal
unblock-block n mask sig h = ground (arith, add_all-member (signals_to_block n) sigemptyset sig)
