-- ===== src/Multiplex/Echo/Room.antt =====
-- asm_4/ex_3_socketpair/ex_3.c never waits for itself: how much is in the socket at most.
use linux_assignment.Prelude.{
  ℕ, ◌+◌, ◌*◌, ◌≤◌, ◌≡◌, List, [], ◌∷◌, Bool, true, false, length, take, arith, length-take,
  length-drop, length-append,
}
use linux_assignment.Multiplex.Echo.{
  Fd, stdin, socket, Stage, handling, writing, System, type_in, end_input, Step, epoll_stdin,
  epoll_socket, epoll_stdin_first, epoll_socket_first, epoll_fails, read_stdin, read_nothing,
  write_part, write_returns, read_socket, next_round, Reach, started, then_step, then_typing,
  buf_size,
}
use linux_assignment.Multiplex.Echo.Order.{in_hand}

-- The events that may be left of a round, and how much is then in the socket or on its way.
abbrev is_round : List Fd → Bool
is_round [] = true
is_round (stdin ∷ []) = true
is_round (socket ∷ []) = true
is_round (stdin ∷ socket ∷ []) = true
is_round (socket ∷ stdin ∷ []) = true
is_round _ = false

abbrev is_possible : Stage → Bool
is_possible (handling events) = is_round events
is_possible (writing bytes []) = true
is_possible (writing bytes (socket ∷ [])) = true
is_possible (writing bytes (fd ∷ events)) = false
is_possible _ = true

abbrev bound : Stage → ℕ
bound (handling (stdin ∷ [])) = 0
bound (handling (socket ∷ [])) = 2 * buf_size
bound (writing bytes (socket ∷ [])) = 2 * buf_size
bound _ = buf_size

record IsBounded (s : System) : Type 0 where
  possible : is_possible s.stage ≡ true
  fits : length s.queue + length (in_hand s.stage) ≤ bound s.stage

Step-IsBounded : {room : ℕ} {s t : System} → Step room s t → IsBounded s → IsBounded t
Step-IsBounded (epoll_stdin at r q) b = ground arith
Step-IsBounded (epoll_socket at q i e) b = ground arith
Step-IsBounded (epoll_stdin_first at r q) b = ground arith
Step-IsBounded (epoll_socket_first at r q) b = ground arith
Step-IsBounded (epoll_fails at) b = ground arith
Step-IsBounded {s = s} (read_stdin n [] at pos small le) b = ground (arith, length-take n s.input)
Step-IsBounded {s = s} (read_stdin n (fd ∷ events) at pos small le) b =
    ground (arith, length-take n s.input)
Step-IsBounded (read_nothing events at empty) b = ground arith
Step-IsBounded {s = s} (write_part n bytes events at pos small free) b =
    ground (arith, length-append s.queue (take n bytes), length-take n bytes, length-drop n bytes)
Step-IsBounded (write_returns events at) b = ground arith
Step-IsBounded {s = s} (read_socket events at) b = ground (arith, length-drop buf_size s.queue)
Step-IsBounded (next_round at) b = ground arith

Reach-IsBounded : {room : ℕ} {s : System} → Reach room s → IsBounded s
Reach-IsBounded started = ground arith
Reach-IsBounded (then_step r st) = Step-IsBounded st (Reach-IsBounded r)
Reach-IsBounded (then_typing r (type_in xs on)) =
    let b = Reach-IsBounded r in record { possible = b.possible; fits = b.fits }
Reach-IsBounded (then_typing r end_input) =
    let b = Reach-IsBounded r in record { possible = b.possible; fits = b.fits }

write_goes_on :
    {room : ℕ} {s : System} (bytes : List ℕ) (events : List Fd)
    → s.stage ≡ writing bytes events
    → length s.queue + length bytes ≤ room
    → (t : System) × Step room s t
write_goes_on [] events at free = (_, write_returns events at)
write_goes_on (x ∷ xs) events at free =
    (_, write_part (length (x ∷ xs)) (x ∷ xs) events at (omega arith) (omega arith) free)

-- Where the socket has room for 2046 bytes, the program never waits for room that only itself could
-- make: in every reachable state in which it writes, all that is left fits, and a step is possible.
pub write_never_blocks :
    {room : ℕ} {s : System} (bytes : List ℕ) (events : List Fd)
    → 2 * buf_size ≤ room
    → Reach room s
    → s.stage ≡ writing bytes events
    → (length s.queue + length bytes ≤ room) × ((t : System) × Step room s t)
write_never_blocks {room} {s} bytes events big r at =
    let free : length s.queue + length bytes ≤ room = ground (arith, Reach-IsBounded r) in
    (free, write_goes_on bytes events at free)
