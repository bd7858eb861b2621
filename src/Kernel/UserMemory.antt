-- ===== src/Kernel/UserMemory.antt =====
-- User memory behind `copy_from_user` and `copy_to_user`, a parameter of the drivers.
-- The laws are the documented ones: each returns the number of bytes that it could not copy, and
-- `copy_from_user` pads what it could not copy with zero bytes.
use linux_assignment.Prelude.{ℕ, ◌≡◌, List, length}

pub record UserCopy : Type 1 where
  pub Memory : Type 0
  -- the `n` bytes at an address
  pub bytes : Memory → ℕ → ℕ → List ℕ
  pub length-bytes : (m : Memory) (a n : ℕ) → length (bytes m a n) ≡ n
  -- from an address, a number of bytes; beside the return value, what the destination receives
  pub copy_from_user : Memory → ℕ → ℕ → ℕ × List ℕ
  pub copy_to_user : Memory → ℕ → List ℕ → ℕ × Memory
  pub length-copy_from_user : (m : Memory) (a n : ℕ) → length (copy_from_user m a n).1 ≡ n
  pub copy_from_user-copied :
      (m : Memory) (a n : ℕ) → (copy_from_user m a n).0 ≡ 0 → (copy_from_user m a n).1 ≡ bytes m a n
  pub copy_to_user-copied :
      (m : Memory) (a : ℕ) (xs : List ℕ)
      → (copy_to_user m a xs).0 ≡ 0
      → bytes (copy_to_user m a xs).1 a (length xs) ≡ xs
