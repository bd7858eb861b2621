-- ===== src/Threads/Locks.antt =====
-- The locks and semaphores that the threads use, as interfaces: parameters of the models, with the
-- documented behaviour of `pthread_mutex_t`, `pthread_spinlock_t` and `sem_t` as laws.
use linux_assignment.Prelude.{ℕ, suc, ◌≡◌, ◌<◌, Option, none, some, refl, arith}

-- A mutex or a spinlock. `Lock s i t`: the call of thread `i` that takes the lock returns, and turns
-- the state `s` into `t`; a thread whose call does not return makes no step.
pub record Mutex : Type 1 where
  pub State : Type 0
  pub initial : State
  pub owner : State → Option ℕ
  pub Lock : State → ℕ → State → Type 0
  pub Unlock : State → ℕ → State → Type 0
  pub initial-free : owner initial ≡ none
  pub Lock-free : (s : State) (i : ℕ) (t : State) → Lock s i t → owner s ≡ none
  pub Lock-owner : (s : State) (i : ℕ) (t : State) → Lock s i t → owner t ≡ some i
  pub Unlock-free : (s : State) (i : ℕ) (t : State) → Unlock s i t → owner t ≡ none
  pub can_lock : (s : State) (i : ℕ) → owner s ≡ none → (t : State) × Lock s i t
  pub can_unlock : (s : State) (i : ℕ) → owner s ≡ some i → (t : State) × Unlock s i t

-- A counting semaphore: `Wait` is a return of `sem_wait`, `Post` one of `sem_post`.
pub record Semaphore : Type 1 where
  pub State : Type 0
  pub initial : ℕ → State
  pub value : State → ℕ
  pub Wait : State → State → Type 0
  pub Post : State → State → Type 0
  pub value-initial : (n : ℕ) → value (initial n) ≡ n
  pub Wait-value : (s t : State) → Wait s t → value s ≡ suc (value t)
  pub Post-value : (s t : State) → Post s t → value t ≡ suc (value s)
  pub can_wait : (s : State) → 0 < value s → (t : State) × Wait s t
  pub can_post : (s : State) → (t : State) × Post s t

-- Instances for the tests: the owner, and the value, are the state.
pub data Locks : Option ℕ → ℕ → Option ℕ → Type 0 where
  locks : {s t : Option ℕ} {i : ℕ} → s ≡ none → t ≡ some i → Locks s i t

pub data Unlocks : Option ℕ → ℕ → Option ℕ → Type 0 where
  unlocks : {s t : Option ℕ} {i : ℕ} → s ≡ some i → t ≡ none → Unlocks s i t

pub Locks-free : (s : Option ℕ) (i : ℕ) (t : Option ℕ) → Locks s i t → s ≡ none
Locks-free s i t (locks free held) = free

pub Locks-owner : (s : Option ℕ) (i : ℕ) (t : Option ℕ) → Locks s i t → t ≡ some i
Locks-owner s i t (locks free held) = held

pub Unlocks-free : (s : Option ℕ) (i : ℕ) (t : Option ℕ) → Unlocks s i t → t ≡ none
Unlocks-free s i t (unlocks held free) = free

abbrev pub simple_mutex : Mutex
simple_mutex = record {
  State = Option ℕ;
  initial = none;
  owner = λ s. s;
  Lock = Locks;
  Unlock = Unlocks;
  initial-free = refl;
  Lock-free = Locks-free;
  Lock-owner = Locks-owner;
  Unlock-free = Unlocks-free;
  can_lock = λ s i e. (some i, locks e refl);
  can_unlock = λ s i e. (none, unlocks e refl);
}

abbrev pub simple_semaphore : Semaphore
simple_semaphore = record {
  State = ℕ;
  initial = λ n. n;
  value = λ s. s;
  Wait = λ s t. s ≡ suc t;
  Post = λ s t. t ≡ suc s;
  value-initial = λ n. refl;
  Wait-value = λ s t e. e;
  Post-value = λ s t e. e;
  can_wait = positive;
  can_post = λ s. (suc s, refl);
}
  where
    positive : (s : ℕ) → 0 < s → (t : ℕ) × (s ≡ suc t)
    positive ℕ.zero h = absurd (omega arith)
    positive (ℕ.suc s) h = (s, refl)
