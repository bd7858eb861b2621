-- ===== src/Threads/LostUpdate/Outcomes.antt =====
-- What the counter of asm_7/ex_2/no_mutex.c may be at the end.
use linux_assignment.Prelude.{ℕ, zero, suc, ◌+◌, ◌-◌, ◌*◌, ◌≤◌, ◌≡◌, refl, ap, arith}
use linux_assignment.Prelude.Sums.{sum, sum-assign, sum-const}
use linux_assignment.Threads.LostUpdate.{
  Pc, idle, loaded, System, start, Step, load, store, Steps, here, next,
}

abbrev pub remaining : Pc → ℕ
remaining (idle left) = left
remaining (loaded left v) = suc left

-- What is counted, or read to be counted, never exceeds the increments made.
pub record IsBounded (threads rounds : ℕ) (s : System) : Type 0 where
  pub counted : s.counter + sum remaining threads s.pc ≤ threads * rounds
  pub read :
      (i left v : ℕ) → s.pc i ≡ loaded left v → v + sum remaining threads s.pc ≤ threads * rounds

Step-IsBounded :
    {threads : ℕ} (rounds : ℕ) {s t : System}
    → Step threads s t
    → IsBounded threads rounds s
    → IsBounded threads rounds t
Step-IsBounded {threads} rounds {s} (load i left lt at) b = record {
  counted =
      ground (arith, b.counted, sum-assign remaining threads s.pc i (loaded left s.counter) lt);
  read = λ j k v h. ground (
    arith,
    b.counted,
    b.read j k v,
    sum-assign remaining threads s.pc i (loaded left s.counter) lt,
  );
}
Step-IsBounded {threads} rounds {s} (store i left v lt at) b = record {
  counted = ground (arith, b.read i left v, sum-assign remaining threads s.pc i (idle left) lt);
  read =
      λ j k w h. ground (arith, b.read j k w, sum-assign remaining threads s.pc i (idle left) lt);
}

Steps-IsBounded :
    {threads : ℕ} (rounds : ℕ) {s t : System}
    → Steps threads s t
    → IsBounded threads rounds s
    → IsBounded threads rounds t
Steps-IsBounded rounds here b = b
Steps-IsBounded rounds (next r st) b = Step-IsBounded rounds st (Steps-IsBounded rounds r b)

start-IsBounded : (threads rounds : ℕ) → IsBounded threads rounds (start rounds)
start-IsBounded threads rounds = record {
  counted = omega (arith, sum-const remaining threads rounds (λ _. idle rounds) (λ i lt. refl));
  read = λ i left v h. cc;
}

-- In every reachable state the counter is at most the number of increments that the threads make.
pub counter-le :
    {threads rounds : ℕ} {s : System}
    → Steps threads (start rounds) s
    → s.counter ≤ threads * rounds
counter-le {threads} {rounds} r =
    omega (arith, (Steps-IsBounded rounds r (start-IsBounded threads rounds)).counted)

-- Two threads at the head of their loops, with as many rounds to go.
abbrev Both : ℕ → ℕ → System → Type 0
Both left c s = (s.pc 0 ≡ idle left) × (s.pc 1 ≡ idle left) × (s.counter ≡ c)

-- One round of each, the second reading before the first writes: one increment is lost.
overlapped :
    {r left c : ℕ} {s : System}
    → Steps 2 (start r) s
    → Both (suc left) c s
    → (t : System) × Steps 2 (start r) t × Both left (c + 1) t
overlapped {r} {left} {c} {s} run (a, b, e) = (
  _,
  next
      (next (next (next run (load 0 left (omega arith) a)) (load 1 left (omega arith) b))
        (store 0 left s.counter (omega arith) refl))
      (store 1 left s.counter (omega arith) refl),
  (refl, refl, ap (λ k. k + 1) e),
)

-- One round of each, one after the other.
separate :
    {r left c : ℕ} {s : System}
    → Steps 2 (start r) s
    → Both (suc left) c s
    → (t : System) × Steps 2 (start r) t × Both left (c + 2) t
separate {r} {left} {c} {s} run (a, b, e) = (
  _,
  next
      (next
        (next (next run (load 0 left (omega arith) a)) (store 0 left s.counter (omega arith) refl))
        (load 1 left (omega arith) b))
      (store 1 left (s.counter + 1) (omega arith) refl),
  (refl, refl, omega arith),
)

-- `lost` rounds that overlap, then the others one after the other.
play :
    (left lost : ℕ) {r c : ℕ} {s : System}
    → lost ≤ left
    → Steps 2 (start r) s
    → Both left c s
    → (t : System) × Steps 2 (start r) t × Both 0 (c + lost + 2 * (left - lost)) t
play zero lost {s = s} le run (a, b, e) = (s, run, (a, b, omega arith))
play (suc left) zero {c = c} le run both =
    let (t, run', both') = separate run both in
    let (v, run'', (a, b, e)) = play left zero {c = c + 2} (omega arith) run' both' in
    (v, run'', (a, b, omega arith))
play (suc left) (suc lost) {c = c} le run both =
    let (t, run', both') = overlapped run both in
    let (v, run'', (a, b, e)) = play left lost {c = c + 1} (omega arith) run' both' in
    (v, run'', (a, b, omega arith))

-- With two threads every number from the rounds of one to the rounds of both is a possible value of
-- the counter when both have finished.
pub outcomes :
    (rounds result : ℕ)
    → rounds ≤ result
    → result ≤ 2 * rounds
    → (s : System) × Steps 2 (start rounds) s
      × (s.pc 0 ≡ idle 0)
      × (s.pc 1 ≡ idle 0)
      × (s.counter ≡ result)
outcomes rounds result low high =
    let (s, run, (a, b, e)) =
      play rounds (2 * rounds - result) {r = rounds} {c = 0} (omega arith) here
        (refl, refl, refl) in
    (s, run, a, b, omega arith)
