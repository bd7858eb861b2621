-- ===== src/Prelude/Sums.antt =====
-- One value for each thread: assignment at one thread, and sums over the first `n` of them.
use Prim.Native.Nat.{ℕ, zero, suc, ◌+◌, ◌*◌, ◌≤◌, ◌<◌}
use mathlib.Core.Path.{◌≡◌, refl, sym, subst}
use mathlib.Core.Logic.{◌≢◌, ◌⊎◌, inl, inr}
use mathlib.Core.Bool.{Bool, true, false}
use native.Mathlib.Decide.{ℕ_discrete}
use native.Mathlib.Omega.{arith}
use linux_assignment.Prelude.Tests.{◌==◌, if◌then◌else◌}

-- `f` with the value of thread `i` made `a`
abbrev pub assign {ℓ} : {A : Type ℓ} → (ℕ → A) → ℕ → A → ℕ → A
assign f i a j = if i == j then a else f j

if_either {ℓ κ} :
    {A : Type ℓ} (Q : A → Type κ) (b : Bool) (x y : A)
    → (b ≡ true → Q x)
    → (b ≡ false → Q y)
    → Q (if b then x else y)
if_either Q true x y q r = q refl
if_either Q false x y q r = r refl

-- What holds of the new value, and of the old values elsewhere, holds of all.
pub assign-All {ℓ κ} :
    {A : Type ℓ} (Q : A → Type κ) (f : ℕ → A) (i : ℕ) (a : A) (j : ℕ)
    → (i ≡ j → Q a)
    → (i ≢ j → Q (f j))
    → Q (assign f i a j)
assign-All Q f i a j q r =
    if_either Q (i == j) a (f j) (λ e. q (ground arith)) (λ e. r (ground arith))

module _ {ℓ} {A : Type ℓ} (weight : A → ℕ) where
  pub sum : ℕ → (ℕ → A) → ℕ
  sum zero f = 0
  sum (suc n) f = weight (f n) + sum n f

  sum-assign_above : (n : ℕ) (f : ℕ → A) (i : ℕ) (a : A) → n ≤ i → sum n (assign f i a) ≡ sum n f
  unfolding sum
  sum-assign_above zero f i a h = refl
  sum-assign_above (suc n) f i a h = ground (arith, sum-assign_above n f i a)

  -- An assignment exchanges one summand.
  pub sum-assign :
      (n : ℕ) (f : ℕ → A) (i : ℕ) (a : A)
      → i < n
      → sum n (assign f i a) + weight (f i) ≡ sum n f + weight a
  unfolding sum
  sum-assign zero f i a h = absurd (omega arith)
  sum-assign (suc n) f i a h = ground (arith, sum-assign n f i a, sum-assign_above n f i a)

  -- A value that all threads share is counted `n` times.
  pub sum-const : (n k : ℕ) (f : ℕ → A) → ((i : ℕ) → i < n → weight (f i) ≡ k) → sum n f ≡ n * k
  unfolding sum
  sum-const zero k f h = omega arith
  sum-const (suc n) k f h =
      grind (arith, h n (omega arith), sum-const n k f (λ i lt. h i (omega arith)))

  pub weight-le-sum : (n : ℕ) (f : ℕ → A) (i : ℕ) → i < n → weight (f i) ≤ sum n f
  unfolding sum
  weight-le-sum zero f i h = absurd (omega arith)
  weight-le-sum (suc n) f i h = ground (arith, weight-le-sum n f i)

-- Of the first `n` values either all are of one kind, or one of them is of the other.
pub all_or_one {ℓ} :
    {A : Type ℓ} (Q R : A → Type 0) (n : ℕ) (f : ℕ → A)
    → ((a : A) → Q a ⊎ R a)
    → ((i : ℕ) → i < n → Q (f i)) ⊎ ((i : ℕ) × (i < n) × R (f i))
all_or_one Q R zero f either = inl (λ i h. absurd (omega arith))
all_or_one Q R (suc n) f either = elim (either (f n)) [
  | inr other ↦ inr (n, omega arith, other)
  | inl last ↦ elim (all_or_one Q R n f either) [
    | inr (i, lt, other) ↦ inr (i, omega arith, other)
    | inl all ↦ inl (λ i h. elim (ℕ_discrete i n) [
      | yes e ↦ subst (λ k. Q (f k)) (sym e) last
      | no ne ↦ all i (omega arith)
    ])
  ]
]
