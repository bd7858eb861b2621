-- ===== src/Multiplex/Select/Line.antt =====
-- What asm_4/ex_2/ex_2.c prints of the line that is entered.
use linux_assignment.Prelude.{
  ℕ, suc, ◌-◌, ◌+◌, ◌≤◌, ◌<◌, ◌≡◌, ◌≢◌, List, [], ◌∷◌, ◌++◌, Option, some, pos, All, length,
  until_zero, refl, arith,
}
use linux_assignment.Multiplex.Select.{buffer_size, please_enter, you_entered, main}

abbrev newline : ℕ
newline = 10

-- `fgets` as documented: it reads up to the first newline, which it keeps, but one byte less than it
-- is given, and fails only where there is nothing to read.
pub record IsFgets (fgets : (size : ℕ) → List ℕ → Option (List ℕ)) : Type 0 where
  pub line :
      (size : ℕ) (text rest : List ℕ)
      → All (λ c. c ≢ newline) text
      → length text + 2 ≤ size
      → fgets size (text ++ newline ∷ rest) ≡ some (text ++ newline ∷ [])
  pub cut :
      (size : ℕ) (text rest : List ℕ)
      → All (λ c. c ≢ newline) text
      → length text + 1 ≡ size
      → 0 < length text
      → fgets size (text ++ rest) ≡ some text

until_zero-whole : (text : List ℕ) → All (λ c. c ≢ 0) text → until_zero text ≡ text
until_zero-whole [] h = refl
until_zero-whole (c ∷ cs) (h, hs) = ground (arith, until_zero-whole cs hs)

All-append_one : (P : ℕ → Type 0) (xs : List ℕ) (x : ℕ) → All P xs → P x → All P (xs ++ x ∷ [])
All-append_one P [] x h k = (k, tt)
All-append_one P (y ∷ xs) x (h, hs) k = (h, All-append_one P xs x hs k)

-- Where `select` finds input and no zero byte is entered, main returns 0 and prints the line with
-- its newline, if it has at most 1022 characters before it.
prints_line :
    (fgets : (size : ℕ) → List ℕ → Option (List ℕ)) (n : ℕ) (text rest : List ℕ)
    → IsFgets fgets
    → All (λ c. c ≢ newline) text
    → All (λ c. c ≢ 0) text
    → length text ≤ buffer_size - 2
    → main fgets (pos (suc n)) (text ++ newline ∷ rest)
      ≡ (please_enter ∷ you_entered (text ++ newline ∷ []) ∷ [], pos 0)
unfolding main
prints_line fgets n text rest f one_line no_zero fits = rw (
  main,
  f.line buffer_size text rest one_line (omega arith),
  until_zero-whole (text ++ newline ∷ [])
      (All-append_one (λ c. c ≢ 0) text newline no_zero (λ e. absurd (omega arith))),
)

-- Of a longer line main prints the first 1023 characters, and nothing more.
prints_part :
    (fgets : (size : ℕ) → List ℕ → Option (List ℕ)) (n : ℕ) (text rest : List ℕ)
    → IsFgets fgets
    → All (λ c. c ≢ newline) text
    → All (λ c. c ≢ 0) text
    → length text ≡ buffer_size - 1
    → main fgets (pos (suc n)) (text ++ rest) ≡ (please_enter ∷ you_entered text ∷ [], pos 0)
unfolding main
prints_part fgets n text rest f one_line no_zero fits = rw (
  main,
  f.cut buffer_size text rest one_line (omega arith) (omega arith),
  until_zero-whole text no_zero,
)
