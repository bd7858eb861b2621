-- ===== src/Multiplex/Echo/Order.antt =====
-- The bytes that asm_4/ex_3_socketpair/ex_3.c reads from the terminal and from the socket.
use mathlib.Core.List.{append-nil, append_assoc}
use linux_assignment.Prelude.{
  ℕ, ◌≡◌, ◌∙◌, refl, ap, sym, List, [], ◌++◌, take, drop, arith, take-append-drop,
}
use linux_assignment.Multiplex.Echo.{
  Stage, writing, System, Typing, type_in, end_input, Step, epoll_stdin, epoll_socket,
  epoll_stdin_first, epoll_socket_first, epoll_fails, read_stdin, read_nothing, write_part,
  write_returns, read_socket, next_round, Reach, started, then_step, then_typing, buf_size,
}

-- the bytes that are read and not written yet
abbrev pub in_hand : Stage → List ℕ
in_hand (writing bytes events) = bytes
in_hand _ = []

module _ {ℓ} {A : Type ℓ} (shown queue : List A) where
  part_moved :
      (n : ℕ) (bytes : List A)
      → shown ++ ((queue ++ take n bytes) ++ drop n bytes) ≡ shown ++ (queue ++ bytes)
  part_moved n bytes =
      ap (λ xs. shown ++ xs)
        (append_assoc queue (take n bytes) (drop n bytes)
          ∙ ap (λ xs. queue ++ xs) (take-append-drop n bytes))

  part_shown : (n : ℕ) → (shown ++ take n queue) ++ (drop n queue ++ []) ≡ shown ++ (queue ++ [])
  part_shown n =
      append_assoc shown (take n queue) (drop n queue ++ [])
      ∙ ap (λ xs. shown ++ xs)
          (sym (append_assoc (take n queue) (drop n queue) [])
            ∙ ap (λ xs. xs ++ []) (take-append-drop n queue))

  part_typed : (xs : List A) → shown ++ (queue ++ xs) ≡ (shown ++ (queue ++ [])) ++ xs
  part_typed xs = simp (append_assoc, append-nil)

abbrev IsEchoed : System → Type 0
IsEchoed s = s.received ++ (s.queue ++ in_hand s.stage) ≡ s.typed

Step-IsEchoed : {room : ℕ} {s t : System} → Step room s t → IsEchoed s → IsEchoed t
Step-IsEchoed (epoll_stdin at r q) c = ground arith
Step-IsEchoed (epoll_socket at q i e) c = ground arith
Step-IsEchoed (epoll_stdin_first at r q) c = ground arith
Step-IsEchoed (epoll_socket_first at r q) c = ground arith
Step-IsEchoed (epoll_fails at) c = ground arith
Step-IsEchoed {s = s} (read_stdin n events at pos fits le) c =
    ground (arith, part_typed s.received s.queue (take n s.input))
Step-IsEchoed (read_nothing events at empty) c = ground arith
Step-IsEchoed {s = s} (write_part n bytes events at pos fits free) c =
    ground (arith, part_moved s.received s.queue n bytes)
Step-IsEchoed (write_returns events at) c = ground arith
Step-IsEchoed {s = s} (read_socket events at) c =
    ground (arith, part_shown s.received s.queue buf_size)
Step-IsEchoed (next_round at) c = ground arith

Typing-IsEchoed : {s t : System} → Typing s t → IsEchoed s → IsEchoed t
Typing-IsEchoed (type_in xs on) c = c
Typing-IsEchoed end_input c = c

-- In every reachable state what was read from the socket, followed by what is in the socket and by what
-- is still to be written to it, is what was read from the terminal, byte by byte and in order.
pub echoes :
    {room : ℕ} {s : System} → Reach room s → s.received ++ (s.queue ++ in_hand s.stage) ≡ s.typed
echoes started = refl
echoes (then_step r st) = Step-IsEchoed st (echoes r)
echoes (then_typing r ty) = Typing-IsEchoed ty (echoes r)
