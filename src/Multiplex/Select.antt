-- ===== src/Multiplex/Select.antt =====
-- asm_4/ex_2/ex_2.c: one line from the terminal, waited for with `select`. `select` and `fgets` are
-- of the C library: what `select` returns, and what `fgets` makes of the characters that stand in
-- the input, are parameters.
pub mod Line
use linux_assignment.Prelude.{
  ℕ, List, [], ◌∷◌, Option, none, some, ℤ, pos, negsuc, zero, suc, until_zero,
}

-- the bytes of `buffer`
abbrev pub buffer_size : ℕ
buffer_size = 1024

pub data Message : Type 0 where
  please_enter : Message
  select_failed : Message
  you_entered : List ℕ → Message
  error_reading : Message
  no_input : Message

-- `main`: its messages, and what it returns. It takes every negative result of `select` for -1,
-- which is the only one that there is.
pub main :
    (fgets : (size : ℕ) → List ℕ → Option (List ℕ)) → (retval : ℤ) → List ℕ → List Message × ℤ
main fgets (negsuc n) input = (please_enter ∷ select_failed ∷ [], pos 1)
main fgets (pos zero) input = (please_enter ∷ no_input ∷ [], pos 0)
main fgets (pos (suc n)) input = elim (fgets buffer_size input) [
  | none ↦ (please_enter ∷ error_reading ∷ [], pos 0)
  | some line ↦ (please_enter ∷ you_entered (until_zero line) ∷ [], pos 0)
]
