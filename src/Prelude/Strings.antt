-- ===== src/Prelude/Strings.antt =====
-- Strings of C: bytes up to a zero byte.
use Prim.Native.Nat.{ℕ, zero, suc, ◌≤◌}
use mathlib.Core.Path.{◌≡◌, refl, ap}
use mathlib.Core.Logic.{◌≢◌}
use mathlib.Core.Bool.{Bool, true, false, ◌||◌}
use mathlib.Core.List.{List, [], ◌∷◌, ◌++◌}
use native.Mathlib.Omega.{arith}
use linux_assignment.Prelude.Tests.{◌==◌, if◌then◌else◌}
use linux_assignment.Prelude.Lists.{length, take, All}

-- A string ends before its first zero byte.
abbrev pub until_zero : List ℕ → List ℕ
until_zero [] = []
until_zero (c ∷ cs) = let rest = until_zero cs in if c == 0 then [] else c ∷ rest

abbrev pub has_zero : List ℕ → Bool
has_zero [] = false
has_zero (c ∷ cs) = (c == 0) || has_zero cs

-- A text without a zero byte, and then one, prints as the text.
pub until_zero-append :
    (text : List ℕ) → All (λ c. c ≢ 0) text → until_zero (text ++ (0 ∷ [])) ≡ text
until_zero-append [] h = refl
until_zero-append (c ∷ cs) h = ground (arith, until_zero-append cs h.1)

pub has_zero-append : (text : List ℕ) → has_zero (text ++ (0 ∷ [])) ≡ true
has_zero-append [] = refl
has_zero-append (c ∷ cs) = ground (arith, has_zero-append cs)

-- A string that does not fit is cut before its zero byte.
pub has_zero-cut :
    (n : ℕ) (text : List ℕ)
    → All (λ c. c ≢ 0) text
    → n ≤ length text
    → has_zero (take n (text ++ (0 ∷ []))) ≡ false
has_zero-cut zero text h le = refl
has_zero-cut (suc n) [] h le = absurd (omega arith)
has_zero-cut (suc n) (c ∷ cs) h le = ground (arith, has_zero-cut n cs h.1 (omega arith), h.0)

pub take-all {ℓ} : {A : Type ℓ} (n : ℕ) (xs : List A) → length xs ≤ n → take n xs ≡ xs
take-all zero [] h = refl
take-all zero (x ∷ xs) h = absurd (omega arith)
take-all (suc n) [] h = refl
take-all (suc n) (x ∷ xs) h = ap (◌∷◌ x) (take-all n xs (omega arith))
