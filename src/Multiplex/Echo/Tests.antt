-- ===== src/Multiplex/Echo/Tests.antt =====
-- The theorems on asm_4/ex_3_socketpair/ex_3.c after "h\n" was typed and read.
use linux_assignment.Prelude.{ℕ, ◌+◌, ◌≤◌, ◌≡◌, inl, refl, arith, [], ◌∷◌, ◌++◌, length}
use linux_assignment.Multiplex.Echo.{
  System, type_in, Step, epoll_stdin, read_stdin, Reach, started, then_step, then_typing,
}
use linux_assignment.Multiplex.Echo.Order.{in_hand, echoes}
use linux_assignment.Multiplex.Echo.Room.{write_never_blocks}

abbrev line_read : (s : System) × Reach 4096 s
line_read = (
  _,
  then_step
      (then_step (then_typing started (type_in (104 ∷ 10 ∷ []) refl))
        (epoll_stdin refl (inl (λ e. cc)) refl))
      (read_stdin 2 [] refl (omega arith) (omega arith) (omega arith)),
)

echoes_example :
    line_read.0.received ++ (line_read.0.queue ++ in_hand line_read.0.stage) ≡ line_read.0.typed
echoes_example = echoes line_read.1

write_never_blocks_example :
    (length line_read.0.queue + length {A = ℕ} (104 ∷ 10 ∷ []) ≤ 4096)
    × ((t : System) × Step 4096 line_read.0 t)
write_never_blocks_example = write_never_blocks (104 ∷ 10 ∷ []) [] (omega arith) line_read.1 refl
