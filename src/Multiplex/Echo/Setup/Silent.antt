-- ===== src/Multiplex/Echo/Setup/Silent.antt =====
-- asm_4/ex_3_socketpair/ex_3.c with standard input that `epoll_ctl` refuses.
use linux_assignment.Prelude.{ℕ, ◌≡◌, ◌⊎◌, inl, [], Bool, true, false, not, is_neg, refl, arith}
use linux_assignment.Multiplex.Echo.{
  Fd, stdin, waiting, broken, System, type_in, end_input, Step, epoll_stdin, epoll_socket,
  epoll_stdin_first, epoll_socket_first, epoll_fails, read_stdin, read_nothing, write_part,
  write_returns, read_socket, next_round,
}
use linux_assignment.Multiplex.Echo.Setup.{
  Answers, enters, set_up, AreWatched, steps, epoll_socket_only, epoll_stdin_only, WatchedReach,
  started, then_step, then_typing,
}

record IsSilent (s : System) : Type 0 where
  waits : (s.stage ≡ waiting) ⊎ (s.stage ≡ broken)
  unsent : s.queue ≡ []
  typed : s.typed ≡ []
  received : s.received ≡ []
  printed : s.printed ≡ []

Step-IsSilent :
    (watched : Fd → Bool) {room : ℕ} {s t : System}
    → watched stdin ≡ false
    → Step room s t
    → AreWatched watched t.stage
    → IsSilent s
    → IsSilent t
Step-IsSilent watched off (epoll_stdin at r e) w o = ground arith
Step-IsSilent watched off (epoll_socket at q i e) w o = ground arith
Step-IsSilent watched off (epoll_stdin_first at r q) w o = ground arith
Step-IsSilent watched off (epoll_socket_first at r q) w o = ground arith
Step-IsSilent watched off (epoll_fails at) w o = ground arith
Step-IsSilent watched off (read_stdin n events at p le k) w o = ground arith
Step-IsSilent watched off (read_nothing events at e) w o = ground arith
Step-IsSilent watched off (write_part n bytes events at p le k) w o = ground arith
Step-IsSilent watched off (write_returns events at) w o = ground arith
Step-IsSilent watched off (read_socket events at) w o = ground arith
Step-IsSilent watched off (next_round at) w o = ground arith

WatchedReach-IsSilent :
    {watched : Fd → Bool} {room : ℕ} {s : System}
    → watched stdin ≡ false
    → WatchedReach watched room s
    → IsSilent s
WatchedReach-IsSilent off started = record {
  waits = inl refl;
  unsent = refl;
  typed = refl;
  received = refl;
  printed = refl;
}
WatchedReach-IsSilent {watched} off (then_step r (steps st w)) =
    Step-IsSilent watched off st w (WatchedReach-IsSilent off r)
WatchedReach-IsSilent off (then_step r (epoll_socket_only at q on off')) =
    let o = WatchedReach-IsSilent off r in absurd (q o.unsent)
WatchedReach-IsSilent off (then_step r (epoll_stdin_only at ready on off')) = cc
WatchedReach-IsSilent off (then_typing r (type_in xs going)) =
    let o = WatchedReach-IsSilent off r in
    record {
      waits = o.waits;
      unsent = o.unsent;
      typed = o.typed;
      received = o.received;
      printed = o.printed;
    }
WatchedReach-IsSilent off (then_typing r end_input) =
    let o = WatchedReach-IsSilent off r in
    record {
      waits = o.waits;
      unsent = o.unsent;
      typed = o.typed;
      received = o.received;
      printed = o.printed;
    }

-- If the first two calls succeed and standard input cannot be added, main enters the loop all the
-- same, and in every state that it reaches, whatever is typed, it waits or has left the loop, has read
-- nothing, and has printed none of the messages of the loop.
pub silent :
    (a : Answers) (room : ℕ) {s : System}
    → is_neg a.epoll_create1 ≡ false
    → is_neg a.socketpair ≡ false
    → is_neg (a.epoll_ctl stdin) ≡ true
    → WatchedReach (λ fd. not (is_neg (a.epoll_ctl fd))) room s
    → (set_up a ≡ enters (λ fd. not (is_neg (a.epoll_ctl fd))))
      × ((s.stage ≡ waiting) ⊎ (s.stage ≡ broken))
      × (s.typed ≡ [])
      × (s.received ≡ [])
      × (s.printed ≡ [])
unfolding set_up
silent a room c p refused r =
    let o = WatchedReach-IsSilent (rw refused) r in
    (rw (c, p), o.waits, o.typed, o.received, o.printed)
