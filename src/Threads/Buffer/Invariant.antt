-- ===== src/Threads/Buffer/Invariant.antt =====
-- What holds between the variables of asm_7/ex_3/ex_3.c at every moment.
use linux_assignment.Prelude.{
  ℕ, zero, suc, ◌+◌, ◌≤◌, ◌<◌, ◌≡◌, List, [], ◌∷◌, Bool, true, false, none, some, arith, length,
  set, get_or,
}
use linux_assignment.Threads.Locks.{Mutex}
use linux_assignment.Threads.Buffer.{
  buffer_size, num_items, Stage, head, waiting, woken, body, signal, unlock, returned, System,
}

-- the sum of the first `n` elements
abbrev pub sum_first : ℕ → List ℕ → ℕ
sum_first zero xs = 0
sum_first (suc n) [] = 0
sum_first (suc n) (x ∷ xs) = x + sum_first n xs

-- 1 + 2 + … + n
abbrev pub sum_to : ℕ → ℕ
sum_to zero = 0
sum_to (suc n) = sum_to n + suc n

pub sum_first-set :
    (n : ℕ) (xs : List ℕ) (v : ℕ)
    → n < length xs
    → sum_first (n + 1) (set xs n v) ≡ sum_first n xs + v
sum_first-set n [] v h = absurd (omega arith)
sum_first-set zero (x ∷ xs) v h = ground arith
sum_first-set (suc n) (x ∷ xs) v h = ground (arith, sum_first-set n xs v)

pub sum_first-get_or : (n : ℕ) (xs : List ℕ) → sum_first (n + 1) xs ≡ sum_first n xs + get_or xs n 0
sum_first-get_or zero [] = ground arith
sum_first-get_or (suc n) [] = ground arith
sum_first-get_or zero (x ∷ xs) = ground arith
sum_first-get_or (suc n) (x ∷ xs) = ground (arith, sum_first-get_or n xs)

-- whether the round's item is already produced, or consumed
abbrev pub round_done : Stage → ℕ
round_done signal = 1
round_done unlock = 1
round_done _ = 0

-- whether a thread has the mutex
abbrev pub holding : Stage → Bool
holding head = false
holding waiting = false
holding woken = false
holding returned = false
holding _ = true

-- whether a thread is in a round
abbrev pub in_round : Stage → Bool
in_round head = false
in_round returned = false
in_round _ = true

abbrev pub is_signal : Stage → Bool
is_signal signal = true
is_signal _ = false

module _ (m : Mutex) where
  open m use {owner}

  abbrev pub made : System m → ℕ
  made s = s.i + round_done s.producer

  abbrev pub taken : System m → ℕ
  taken s = s.j + round_done s.consumer

  pub record IsConsistent (s : System m) : Type 0 where
    pub sized : length s.buffer ≡ buffer_size
    pub kept : made s ≡ taken s + s.buffer_index
    pub room : s.buffer_index ≤ buffer_size
    pub rounds_1 : s.i ≤ num_items
    pub inside_1 : in_round s.producer ≡ true → s.i < num_items
    pub over_1 : s.producer ≡ returned → s.i ≡ num_items
    pub rounds_2 : s.j ≤ num_items
    pub inside_2 : in_round s.consumer ≡ true → s.j < num_items
    pub over_2 : s.consumer ≡ returned → s.j ≡ num_items
    pub body_1 : s.producer ≡ body → s.buffer_index < buffer_size
    pub body_2 : s.consumer ≡ body → 0 < s.buffer_index
    pub produced : s.producer_sum ≡ sum_to (made s)
    pub consumed : s.consumer_sum + sum_first s.buffer_index s.buffer ≡ s.producer_sum
    pub ready : 0 < made s → s.data_ready ≡ true
    pub owned_1 : holding s.producer ≡ true → owner s.lock ≡ some 1
    pub owned_2 : holding s.consumer ≡ true → owner s.lock ≡ some 2
    pub free : holding s.producer ≡ false → holding s.consumer ≡ false → owner s.lock ≡ none
    pub full : s.producer ≡ waiting → is_signal s.consumer ≡ false → s.buffer_index ≡ buffer_size
    pub empty : s.consumer ≡ waiting → is_signal s.producer ≡ false → s.buffer_index ≡ 0
