-- ===== src/Kernel/FlatMemory.antt =====
-- User memory of 4096 bytes from address 0 on: an instance of `UserCopy`, for tests.
use linux_assignment.Prelude.{
  ℕ, zero, suc, ◌+◌, ◌<◌, ◌≡◌, refl, ap, ap₂, ◌∙◌, inl, inr, Bool-cases, List, [], ◌∷◌, arith, leb,
  ◌==◌, if◌then◌else◌, length, replicate, length-replicate,
}
use linux_assignment.Kernel.UserMemory.{UserCopy}

abbrev pub bytes_at : (ℕ → ℕ) → ℕ → ℕ → List ℕ
bytes_at m a zero = []
bytes_at m a (suc n) = m a ∷ bytes_at m (suc a) n

abbrev pub put : (ℕ → ℕ) → ℕ → List ℕ → ℕ → ℕ
put m a [] = m
put m a (x ∷ xs) = λ j. if a == j then x else put m (suc a) xs j

pub length-bytes_at : (m : ℕ → ℕ) (a n : ℕ) → length (bytes_at m a n) ≡ n
length-bytes_at m a zero = refl
length-bytes_at m a (suc n) = ap suc (length-bytes_at m (suc a) n)

bytes_at-ext :
    (f g : ℕ → ℕ) (a n : ℕ) → ((j : ℕ) → a < suc j → f j ≡ g j) → bytes_at f a n ≡ bytes_at g a n
bytes_at-ext f g a zero h = refl
bytes_at-ext f g a (suc n) h =
    ap₂ ◌∷◌ (h a (omega arith)) (bytes_at-ext f g (suc a) n (λ j lt. h j (omega arith)))

bytes_at-put : (m : ℕ → ℕ) (a : ℕ) (xs : List ℕ) → bytes_at (put m a xs) a (length xs) ≡ xs
bytes_at-put m a [] = refl
bytes_at-put m a (x ∷ xs) = ap₂ ◌∷◌ (ground arith) (
    bytes_at-ext (put m a (x ∷ xs)) (put m (suc a) xs) (suc a) (length xs) (λ j lt. ground arith)
    ∙ bytes_at-put m (suc a) xs)

abbrev pub limit : ℕ
limit = 4096

abbrev pub take_from : (ℕ → ℕ) → ℕ → ℕ → ℕ × List ℕ
take_from m a n = if leb (a + n) limit then (0, bytes_at m a n) else (n, replicate n 0)

abbrev pub put_to : (ℕ → ℕ) → ℕ → List ℕ → ℕ × (ℕ → ℕ)
put_to m a xs = if leb (a + length xs) limit then (0, put m a xs) else (suc (length xs), m)

pub length-take_from : (m : ℕ → ℕ) (a n : ℕ) → length (take_from m a n).1 ≡ n
length-take_from m a n = ground (arith, length-bytes_at m a n, length-replicate {A = ℕ} n 0)

pub take_from-copied :
    (m : ℕ → ℕ) (a n : ℕ) → (take_from m a n).0 ≡ 0 → (take_from m a n).1 ≡ bytes_at m a n
take_from-copied m a zero h = ground arith
take_from-copied m a (suc n) h = ground arith

pub put_to-copied :
    (m : ℕ → ℕ) (a : ℕ) (xs : List ℕ)
    → (put_to m a xs).0 ≡ 0
    → bytes_at (put_to m a xs).1 a (length xs) ≡ xs
put_to-copied m a xs h = elim (Bool-cases (leb (a + length xs) limit)) [
  | inl fits ↦ rw fits (bytes_at-put m a xs)
  | inr over ↦ absurd (ground arith)
]

abbrev pub flat : UserCopy
flat = record {
  Memory = ℕ → ℕ;
  bytes = bytes_at;
  length-bytes = length-bytes_at;
  copy_from_user = take_from;
  copy_to_user = put_to;
  length-copy_from_user = length-take_from;
  copy_from_user-copied = take_from-copied;
  copy_to_user-copied = put_to-copied;
}
