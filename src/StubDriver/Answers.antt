-- ===== src/StubDriver/Answers.antt =====
-- What user space sees of asm_11/ex_1/ex_1.c.
use linux_assignment.Prelude.{ℕ, ◌≡◌, is_neg, false, refl}
use linux_assignment.IoctlDriver.{etx_read, etx_write}
use linux_assignment.StubDriver.{
  dev_open, dev_release, dev_read, dev_write, Call, open_file, release_file, read, write, answer,
}

-- No call is refused.
nothing_refused : (c : Call) → is_neg (answer c) ≡ false
unfolding answer dev_open dev_release dev_read dev_write
nothing_refused open_file = refl
nothing_refused release_file = refl
nothing_refused (read len) = refl
nothing_refused (write len) = refl

-- Reads and writes are answered as those of asm_11/ex_3/ex_3.c are.
same_as-etx : (len : ℕ) → (answer (read len) ≡ etx_read len) × (answer (write len) ≡ etx_write len)
unfolding answer dev_read dev_write etx_read etx_write
same_as-etx len = (refl, refl)
