-- ===== src/Threads/Buffer.antt =====
-- asm_7/ex_3/ex_3.c: a producer and a consumer over a buffer of five, with a mutex and two condition
-- variables. A step is one lock or unlock call, one evaluation of a `while` condition, one signal, or
-- the statements between the loop and the signal, which the mutex protects.
pub mod Invariant
pub mod Preserved
pub mod Ends
pub mod Progress
use linux_assignment.Prelude.{
  ℕ, ◌+◌, ◌-◌, ◌≤◌, ◌<◌, ◌≡◌, List, [], Bool, true, false, not, ◌||◌, leb, set, get_or, replicate,
}
use linux_assignment.Threads.Locks.{Mutex}

-- BUFFER_SIZE and NUM_ITEMS
abbrev pub buffer_size : ℕ
buffer_size = 5

abbrev pub num_items : ℕ
num_items = 10

-- Where a thread stands in a round of its loop. `pthread_cond_wait` gives the mutex back and waits,
-- and takes it again when the thread is woken.
pub data Stage : Type 0 where
  head : Stage  -- before the lock call
  test : Stage  -- at the `while`
  waiting : Stage  -- in `pthread_cond_wait`
  woken : Stage  -- in `pthread_cond_wait`, to take the mutex again
  body : Stage  -- behind the `while`
  signal : Stage  -- before `pthread_cond_signal`
  unlock : Stage  -- before the unlock call
  returned : Stage

-- `pthread_cond_signal` wakes the thread that waits, if it does.
abbrev pub wake : Stage → Stage
wake waiting = woken
wake st = st

module _ (m : Mutex) where
  open m use {State, initial, Lock, Unlock}

  -- The shared variables, and the stage and the loop variable of the producer and of the consumer.
  pub record System : Type 0 where
    pub lock : State
    pub buffer : List ℕ
    pub buffer_index : ℕ
    pub producer_sum : ℕ
    pub consumer_sum : ℕ
    pub last_value : ℕ
    pub data_ready : Bool
    pub producer : Stage
    pub i : ℕ
    pub consumer : Stage
    pub j : ℕ

  abbrev pub start : System
  start = record {
    lock = initial;
    buffer = replicate buffer_size 0;
    buffer_index = 0;
    producer_sum = 0;
    consumer_sum = 0;
    last_value = 0;
    data_ready = false;
    producer = head;
    i = 0;
    consumer = head;
    j = 0;
  }

  -- The statements of the two loops between the `while` and the signal.
  pub produce : System → System
  produce s = record s {
    buffer = set s.buffer s.buffer_index (s.i + 1);
    buffer_index = s.buffer_index + 1;
    producer_sum = s.producer_sum + (s.i + 1);
    last_value = s.i + 1;
    data_ready = true;
    producer = signal;
  }

  pub consume : System → System
  consume s = record s {
    buffer_index = s.buffer_index - 1;
    consumer_sum = s.consumer_sum + get_or s.buffer (s.buffer_index - 1) 0;
    last_value = get_or s.buffer (s.buffer_index - 1) 0;
    consumer = signal;
  }

  -- the condition of the consumer's `while`
  abbrev pub nothing_there : System → Bool
  nothing_there s = leb s.buffer_index 0 || not s.data_ready

  -- Producer is thread 1, consumer thread 2.
  pub data Step (s : System) : System → Type 0 where
    p_lock :
        (t : State)
        → s.producer ≡ head
        → s.i < num_items
        → Lock s.lock 1 t
        → Step s (record s { lock = t; producer = test })
    p_wait :
        (t : State)
        → s.producer ≡ test
        → buffer_size ≤ s.buffer_index
        → Unlock s.lock 1 t
        → Step s (record s { lock = t; producer = waiting })
    p_relock :
        (t : State)
        → s.producer ≡ woken
        → Lock s.lock 1 t
        → Step s (record s { lock = t; producer = test })
    p_pass :
        s.producer ≡ test → s.buffer_index < buffer_size → Step s (record s { producer = body })
    p_body : s.producer ≡ body → Step s (produce s)
    p_signal :
        s.producer ≡ signal → Step s (record s { consumer = wake s.consumer; producer = unlock })
    p_unlock :
        (t : State)
        → s.producer ≡ unlock
        → Unlock s.lock 1 t
        → Step s (record s { lock = t; producer = head; i = s.i + 1 })
    p_return : s.producer ≡ head → num_items ≤ s.i → Step s (record s { producer = returned })
    c_lock :
        (t : State)
        → s.consumer ≡ head
        → s.j < num_items
        → Lock s.lock 2 t
        → Step s (record s { lock = t; consumer = test })
    c_wait :
        (t : State)
        → s.consumer ≡ test
        → nothing_there s ≡ true
        → Unlock s.lock 2 t
        → Step s (record s { lock = t; consumer = waiting })
    c_relock :
        (t : State)
        → s.consumer ≡ woken
        → Lock s.lock 2 t
        → Step s (record s { lock = t; consumer = test })
    c_pass : s.consumer ≡ test → nothing_there s ≡ false → Step s (record s { consumer = body })
    c_body : s.consumer ≡ body → Step s (consume s)
    c_signal :
        s.consumer ≡ signal → Step s (record s { producer = wake s.producer; consumer = unlock })
    c_unlock :
        (t : State)
        → s.consumer ≡ unlock
        → Unlock s.lock 2 t
        → Step s (record s { lock = t; consumer = head; j = s.j + 1 })
    c_return : s.consumer ≡ head → num_items ≤ s.j → Step s (record s { consumer = returned })

  -- A thread may also be woken by no signal.
  pub data Wakeup (s : System) : System → Type 0 where
    p_wakeup : s.producer ≡ waiting → Wakeup s (record s { producer = woken })
    c_wakeup : s.consumer ≡ waiting → Wakeup s (record s { consumer = woken })

  pub data Reach : System → Type 0 where
    started : Reach start
    then_step : {s t : System} → Reach s → Step s t → Reach t
    then_wakeup : {s t : System} → Reach s → Wakeup s t → Reach t
