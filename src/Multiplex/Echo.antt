-- ===== src/Multiplex/Echo.antt =====
-- asm_4/ex_3_socketpair/ex_3.c: what is typed is written to one end of a socket pair and read at the
-- other, by one thread that waits for both with `epoll`. A step is a return of one call, with the
-- messages that follow it. As documented, `epoll_wait` reports what is readable at that moment, in some
-- order; a read of a socket returns what is there, up to the size of the buffer; and the write, to a
-- socket that is not in non-blocking mode, goes on in parts until all is written.
pub mod Order
pub mod Room
pub mod Setup
mod Tests
use linux_assignment.Prelude.{
  ℕ, ◌+◌, ◌≤◌, ◌<◌, ◌≡◌, ◌≢◌, ◌⊎◌, List, [], ◌∷◌, ◌++◌, Bool, true, false, length, take, drop,
  until_zero,
}

-- `sizeof(buf) - 1`
abbrev pub buf_size : ℕ
buf_size = 1023

-- the two descriptors that are watched
pub data Fd : Type 0 where
  stdin : Fd
  socket : Fd

pub data Stage : Type 0 where
  waiting : Stage  -- in `epoll_wait`
  handling : List Fd → Stage  -- with the events that are left of the round
  writing : (bytes : List ℕ) → List Fd → Stage  -- in `write`, with the bytes that are left
  broken : Stage  -- after the loop

-- what is printed after a read, with the text as `printf` takes it: up to its first zero byte
pub data Message : Type 0 where
  user_typed : List ℕ → Message
  message_from_socketpair : List ℕ → Message

-- nothing is printed where `read` returns 0 or fails
abbrev pub print : (List ℕ → Message) → List ℕ → List Message
print message [] = []
print message (c ∷ cs) = message (until_zero (c ∷ cs)) ∷ []

pub record System : Type 0 where
  pub stage : Stage
  pub input : List ℕ  -- typed, and not read
  pub ended : Bool  -- no more will be typed
  pub queue : List ℕ  -- written to `sv[0]`, and not read from `sv[1]`
  pub typed : List ℕ  -- read from standard input
  pub received : List ℕ  -- read from `sv[1]`
  pub printed : List Message

abbrev pub start : System
start = record {
  stage = waiting;
  input = [];
  ended = false;
  queue = [];
  typed = [];
  received = [];
  printed = [];
}

-- What the user does.
pub data Typing (s : System) : System → Type 0 where
  type_in : (xs : List ℕ) → s.ended ≡ false → Typing s (record s { input = s.input ++ xs })
  end_input : Typing s (record s { ended = true })

abbrev pub IsReady : System → Type 0
IsReady s = (s.input ≢ []) ⊎ (s.ended ≡ true)

-- What the program does, where the socket has room for `room` bytes.
pub data Step (room : ℕ) (s : System) : System → Type 0 where
  epoll_stdin :
      s.stage ≡ waiting
      → IsReady s
      → s.queue ≡ []
      → Step room s (record s { stage = handling (stdin ∷ []) })
  epoll_socket :
      s.stage ≡ waiting
      → s.queue ≢ []
      → s.input ≡ []
      → s.ended ≡ false
      → Step room s (record s { stage = handling (socket ∷ []) })
  epoll_stdin_first :
      s.stage ≡ waiting
      → IsReady s
      → s.queue ≢ []
      → Step room s (record s { stage = handling (stdin ∷ socket ∷ []) })
  epoll_socket_first :
      s.stage ≡ waiting
      → IsReady s
      → s.queue ≢ []
      → Step room s (record s { stage = handling (socket ∷ stdin ∷ []) })
  epoll_fails : s.stage ≡ waiting → Step room s (record s { stage = broken })
  read_stdin :
      (n : ℕ) (events : List Fd)
      → s.stage ≡ handling (stdin ∷ events)
      → 0 < n
      → n ≤ buf_size
      → n ≤ length s.input
      → Step room s (record s {
        stage = writing (take n s.input) events;
        input = drop n s.input;
        typed = s.typed ++ take n s.input;
        printed = s.printed ++ print user_typed (take n s.input);
      })
  read_nothing :
      (events : List Fd)
      → s.stage ≡ handling (stdin ∷ events)
      → s.input ≡ []
      → Step room s (record s { stage = handling events })
  write_part :
      (n : ℕ) (bytes : List ℕ) (events : List Fd)
      → s.stage ≡ writing bytes events
      → 0 < n
      → n ≤ length bytes
      → length s.queue + n ≤ room
      → Step room s
          (record s { stage = writing (drop n bytes) events; queue = s.queue ++ take n bytes })
  write_returns :
      (events : List Fd)
      → s.stage ≡ writing [] events
      → Step room s (record s { stage = handling events })
  read_socket :
      (events : List Fd)
      → s.stage ≡ handling (socket ∷ events)
      → Step room s (record s {
        stage = handling events;
        queue = drop buf_size s.queue;
        received = s.received ++ take buf_size s.queue;
        printed = s.printed ++ print message_from_socketpair (take buf_size s.queue);
      })
  next_round : s.stage ≡ handling [] → Step room s (record s { stage = waiting })

pub data Reach (room : ℕ) : System → Type 0 where
  started : Reach room start
  then_step : {s t : System} → Reach room s → Step room s t → Reach room t
  then_typing : {s t : System} → Reach room s → Typing s t → Reach room t
