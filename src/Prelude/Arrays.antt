-- ===== src/Prelude/Arrays.antt =====
-- Undefined behaviour as a value, and accesses to C arrays that have it.
use Prim.Native.Nat.{ℕ, zero, suc, ◌+◌, ◌-◌, ◌≤◌, ◌<◌, min}
use mathlib.Core.Path.{◌≡◌, refl, ap}
use mathlib.Core.Logic.{◌⊎◌, inl, inr}
use mathlib.Core.Bool.{Bool, ◌||◌}
use mathlib.Core.List.{List, [], ◌∷◌, ◌++◌}
use native.Mathlib.Omega.{arith}
use linux_assignment.Prelude.Tests.{leb, ltb, ◌==◌, if◌then◌else◌}
use linux_assignment.Prelude.Lists.{length, set, take, drop}

-- `fault` is an access outside an object, after which C promises nothing.
pub data Outcome {ℓ} (A : Type ℓ) : Type ℓ where
  done : A → Outcome A
  fault : Outcome A

infixl 5 ◌>>=◌
abbrev pub ◌>>=◌ {ℓ κ} : {A : Type ℓ} {B : Type κ} → Outcome A → (A → Outcome B) → Outcome B
done a >>= f = f a
fault >>= f = fault

pub Outcome-cases {ℓ} : {A : Type ℓ} (out : Outcome A) → ((a : A) × (out ≡ done a)) ⊎ (out ≡ fault)
Outcome-cases (done a) = inl (a, refl)
Outcome-cases fault = inr refl

module _ {ℓ} {A : Type ℓ} where
  -- `xs` over the elements of `buf` from index `off` on
  pub splice : List A → ℕ → List A → List A
  splice [] off xs = []
  splice (b ∷ buf) zero [] = b ∷ buf
  splice (b ∷ buf) zero (x ∷ xs) = x ∷ splice buf zero xs
  splice (b ∷ buf) (suc off) xs = b ∷ splice buf off xs

  -- An access to the `n` elements from `off` on; one of no element touches nothing.
  abbrev pub in_range : List A → ℕ → ℕ → Bool
  in_range buf off n = (n == 0) || leb (off + n) (length buf)

  pub slice : List A → ℕ → ℕ → Outcome (List A)
  slice buf off n = if in_range buf off n then done (take n (drop off buf)) else fault

  pub overwrite : List A → ℕ → List A → Outcome (List A)
  overwrite buf off xs = if in_range buf off (length xs) then done (splice buf off xs) else fault

  pub store : List A → ℕ → A → Outcome (List A)
  store buf i x = if ltb i (length buf) then done (set buf i x) else fault

  pub length-splice :
      (buf : List A) (off : ℕ) (xs : List A) → length (splice buf off xs) ≡ length buf
  unfolding splice
  length-splice [] off xs = refl
  length-splice (b ∷ buf) zero [] = refl
  length-splice (b ∷ buf) zero (x ∷ xs) = ap suc (length-splice buf zero xs)
  length-splice (b ∷ buf) (suc off) xs = ap suc (length-splice buf off xs)

  pub take-splice :
      (buf : List A) (off : ℕ) (xs : List A)
      → off + length xs ≤ length buf
      → take (length xs) (drop off (splice buf off xs)) ≡ xs
  unfolding splice
  take-splice [] zero [] h = refl
  take-splice [] (suc off) [] h = refl
  take-splice [] off (x ∷ xs) h = absurd (omega arith)
  take-splice (b ∷ buf) zero [] h = refl
  take-splice (b ∷ buf) zero (x ∷ xs) h = ap (◌∷◌ x) (take-splice buf zero xs (omega arith))
  take-splice (b ∷ buf) (suc off) xs h = take-splice buf off xs (omega arith)

  pub slice-done :
      (buf : List A) (off n : ℕ)
      → off + n ≤ length buf
      → slice buf off n ≡ done (take n (drop off buf))
  unfolding slice
  slice-done buf off n h = ground arith

  pub slice-fault :
      (buf : List A) (off n : ℕ) → 0 < n → length buf < off + n → slice buf off n ≡ fault
  unfolding slice
  slice-fault buf off n p h = ground arith

  pub overwrite-done :
      (buf : List A) (off : ℕ) (xs : List A)
      → off + length xs ≤ length buf
      → overwrite buf off xs ≡ done (splice buf off xs)
  unfolding overwrite
  overwrite-done buf off xs h = ground arith

  pub overwrite-empty :
      (buf : List A) (off : ℕ) (xs : List A)
      → length xs ≡ 0
      → overwrite buf off xs ≡ done (splice buf off xs)
  unfolding overwrite
  overwrite-empty buf off xs h = ground arith

  pub overwrite-fault :
      (buf : List A) (off : ℕ) (xs : List A)
      → 0 < length xs
      → length buf < off + length xs
      → overwrite buf off xs ≡ fault
  unfolding overwrite
  overwrite-fault buf off xs p h = ground arith

  pub store-done :
      (buf : List A) (i : ℕ) (x : A) → i < length buf → store buf i x ≡ done (set buf i x)
  unfolding store
  store-done buf i x h = ground arith

  pub store-fault : (buf : List A) (i : ℕ) (x : A) → length buf ≤ i → store buf i x ≡ fault
  unfolding store
  store-fault buf i x h = ground arith

-- A write behind what is read changes nothing of it.
pub take-set {ℓ} :
    {A : Type ℓ} (n i : ℕ) (a : A) (xs : List A) → n ≤ i → take n (set xs i a) ≡ take n xs
take-set zero i a xs h = refl
take-set (suc n) i a [] h = refl
take-set (suc n) zero a (x ∷ xs) h = absurd (omega arith)
take-set (suc n) (suc i) a (x ∷ xs) h = ap (◌∷◌ x) (take-set n i a xs (omega arith))

pub take-drop-set {ℓ} :
    {A : Type ℓ} (n off i : ℕ) (a : A) (xs : List A)
    → off + n ≤ i
    → take n (drop off (set xs i a)) ≡ take n (drop off xs)
take-drop-set n zero i a xs h = take-set n i a xs (omega arith)
take-drop-set n (suc off) i a [] h = refl
take-drop-set n (suc off) zero a (x ∷ xs) h = absurd (omega arith)
take-drop-set n (suc off) (suc i) a (x ∷ xs) h = take-drop-set n off i a xs (omega arith)

pub take-drop-splice {ℓ} :
    {A : Type ℓ} (n off : ℕ) (buf xs : List A)
    → length xs ≤ length buf
    → off + n ≤ length xs
    → take n (drop off (splice buf 0 xs)) ≡ take n (drop off xs)
unfolding splice
take-drop-splice zero zero buf xs h k = refl
take-drop-splice n off [] [] h k = refl
take-drop-splice (suc n) zero (b ∷ buf) [] h k = absurd (omega arith)
take-drop-splice n (suc off) (b ∷ buf) [] h k = absurd (omega arith)
take-drop-splice n off [] (x ∷ xs) h k = absurd (omega arith)
take-drop-splice (suc n) zero (b ∷ buf) (x ∷ xs) h k =
    ap (◌∷◌ x) (take-drop-splice n zero buf xs (omega arith) (omega arith))
take-drop-splice n (suc off) (b ∷ buf) (x ∷ xs) h k =
    take-drop-splice n off buf xs (omega arith) (omega arith)

pub take-take {ℓ} :
    {A : Type ℓ} (j k n : ℕ) (xs : List A) → j ≡ min k n → take j xs ≡ take k (take n xs)
take-take zero zero n xs e = refl
take-take zero (suc k) zero xs e = refl
take-take zero (suc k) (suc n) xs e = absurd (omega arith)
take-take (suc j) zero n xs e = absurd (omega arith)
take-take (suc j) (suc k) zero xs e = absurd (omega arith)
take-take (suc j) (suc k) (suc n) [] e = refl
take-take (suc j) (suc k) (suc n) (x ∷ xs) e = ap (◌∷◌ x) (take-take j k n xs (omega arith))

pub take-drop-take {ℓ} :
    {A : Type ℓ} (j k n off : ℕ) (xs : List A)
    → j ≡ min k (n - off)
    → take j (drop off xs) ≡ take k (drop off (take n xs))
take-drop-take j k n zero xs e = take-take j k n xs (omega arith)
take-drop-take zero zero zero (suc off) xs e = refl
take-drop-take zero (suc k) zero (suc off) xs e = refl
take-drop-take (suc j) k zero (suc off) xs e = absurd (omega arith)
take-drop-take zero zero (suc n) (suc off) [] e = refl
take-drop-take zero (suc k) (suc n) (suc off) [] e = refl
take-drop-take (suc j) zero (suc n) (suc off) [] e = absurd (omega arith)
take-drop-take (suc j) (suc k) (suc n) (suc off) [] e = refl
take-drop-take j k (suc n) (suc off) (x ∷ xs) e = take-drop-take j k n off xs (omega arith)

pub take-splice_overlay {ℓ} :
    {A : Type ℓ} (n : ℕ) (buf xs : List A)
    → length xs ≤ length buf
    → take n (splice buf 0 xs) ≡ take n (xs ++ drop (length xs) (take n buf))
unfolding splice
take-splice_overlay zero buf xs h = refl
take-splice_overlay (suc n) [] [] h = refl
take-splice_overlay (suc n) [] (x ∷ xs) h = absurd (omega arith)
take-splice_overlay (suc n) (b ∷ buf) [] h = ap (◌∷◌ b) (take-take n n n buf (omega arith))
take-splice_overlay (suc n) (b ∷ buf) (x ∷ xs) h =
    ap (◌∷◌ x) (take-splice_overlay n buf xs (omega arith))

-- Up to the end of what is written.
pub take-splice_at {ℓ} :
    {A : Type ℓ} (n off : ℕ) (buf xs : List A)
    → n ≡ off + length xs
    → n ≤ length buf
    → take n (splice buf off xs) ≡ take off buf ++ xs
unfolding splice
take-splice_at zero zero buf [] e h = refl
take-splice_at zero zero buf (x ∷ xs) e h = absurd (omega arith)
take-splice_at zero (suc off) buf xs e h = absurd (omega arith)
take-splice_at (suc n) zero buf [] e h = absurd (omega arith)
take-splice_at (suc n) off [] xs e h = absurd (omega arith)
take-splice_at (suc n) zero (b ∷ buf) (x ∷ xs) e h =
    ap (◌∷◌ x) (take-splice_at n zero buf xs (omega arith) (omega arith))
take-splice_at (suc n) (suc off) (b ∷ buf) xs e h =
    ap (◌∷◌ b) (take-splice_at n off buf xs (omega arith) (omega arith))
