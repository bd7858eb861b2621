-- ===== src/MultiDriver/Client.antt =====
-- asm_11/ex_2_multi2/ex_2_user.c: the menu program that opens one of the five devices, and writes to
-- it and reads from it through the one open file.
-- What the terminal delivers is a parameter: the number, `none` if `scanf` cannot read one, and the
-- menu's options that have been typed so far, one by one. User memory comes with an option as it is at
-- the call: with the text and its zero byte in `write_buf`, or after `memset` of `read_buf`. Where the
-- list ends the program waits for the next option. A terminal at the end of its input, where `scanf`
-- fails and the last option is taken again and again, is not modelled.
pub mod Session
pub mod Again
mod Tests
use Prim.Native.String.{String}
use linux_assignment.Prelude.{
  ℕ, ◌+◌, List, [], ◌∷◌, ◌++◌, Bool, true, false, ◌||◌, leb, ltb, ◌==◌, not, if◌then◌else◌, Option,
  none, some, length, get_elem?, ℤ, pos, negsuc, is_neg, Outcome, done, fault, ◌>>=◌, until_zero,
  has_zero,
}
use linux_assignment.Kernel.UserMemory.{UserCopy}
use linux_assignment.MultiDriver.{MyDevice, ReadReply, WriteReply, buffer_size, dev_read, dev_write}
use linux_assignment.MultiDriver.Files.{
  OpenFile, System, device_of, Op, open_minor, read, write, perform,
}

abbrev pub max_devices : ℕ
max_devices = 5

abbrev pub device_names : List String
device_names = "sensor0" ∷ "sensor1" ∷ "hello0" ∷ "hello1" ∷ "goodbye" ∷ []

module _ (u : UserCopy) where
  open u use {Memory, bytes}

  -- `printf` of a string that stands in `read_buf`, all zero but for the bytes given: without a zero
  -- byte in the buffer it would read behind it.
  pub print_text : List ℕ → Outcome (List ℕ)
  print_text xs = if has_zero xs || ltb (length xs) buffer_size then done (until_zero xs) else fault

  -- An option with what is typed after it; any other character is `other`.
  pub data Input : Type 0 where
    write_text : Memory → (text : List ℕ) → Input
    read_text : Memory → Input
    leave : Input
    other : ℕ → Input

  pub data Output : Type 0 where
    write_failed : Output
    write_successful : Output
    read_failed : Output
    data_read : List ℕ → Output
    exiting : Output
    invalid : ℕ → Output
    invalid_number : Output
    cannot_open : Output

  -- The return values of the two calls on the file.
  pub write_ret : System → (fd : ℕ) → Memory → (buf len : ℕ) → Outcome ℤ
  write_ret s fd m buf len = elim (get_elem? s.files fd) [
    | none ↦ done (negsuc 8)
    | some f ↦ do dev ← device_of s f; w ← dev_write u dev m buf len f.f_pos; done w.ret
  ]

  -- with the bytes that arrive in `buf`
  pub read_ret : System → (fd : ℕ) → Memory → (buf len : ℕ) → Outcome (ℤ × List ℕ)
  read_ret s fd m buf len = elim (get_elem? s.files fd) [
    | none ↦ done (negsuc 8, [])
    | some f ↦ do
      dev ← device_of s f
      r ← dev_read u dev m buf len f.f_pos
      done (r.ret, elim r.ret [ pos n ↦ bytes r.mem buf n | negsuc e ↦ [] ])
  ]

  -- The loop of `main` with the addresses of its buffers: what it has printed, and the driver, once it
  -- has returned or waits for the next option.
  pub menu : (write_buf read_buf fd : ℕ) → System → List Input → Outcome (List Output × System)
  menu write_buf read_buf fd s [] = done ([], s)
  menu write_buf read_buf fd s (write_text m text ∷ inputs) = do
    ret ← write_ret s fd m write_buf (length text + 1)
    s' ← perform u s (write fd m write_buf (length text + 1))
    rest ← menu write_buf read_buf fd s' inputs
    done ((if is_neg ret then write_failed else write_successful) ∷ rest.0, rest.1)
  menu write_buf read_buf fd s (read_text m ∷ inputs) = do
    ret ← read_ret s fd m read_buf buffer_size
    s' ← perform u s (read fd m read_buf buffer_size)
    text ← print_text ret.1
    rest ← menu write_buf read_buf fd s' inputs
    done ((if is_neg ret.0 then read_failed else data_read text) ∷ rest.0, rest.1)
  menu write_buf read_buf fd s (leave ∷ inputs) = done (exiting ∷ [], s)
  menu write_buf read_buf fd s (other c ∷ inputs) = do
    rest ← menu write_buf read_buf fd s inputs
    done (invalid c ∷ rest.0, rest.1)

  -- `main`, with the number typed and whether the device file can be opened; without a number it uses a
  -- variable that nothing has written. A new open file has the next number. `dev_num` names the minor:
  -- `device_names` lists the devices as the driver does.
  pub main :
      (write_buf read_buf : ℕ)
      → System
      → (dev_num : Option ℤ) → (can_open : Bool) → List Input
      → Outcome (List Output × System)
  main write_buf read_buf s none can_open inputs = fault
  main write_buf read_buf s (some (negsuc n)) can_open inputs = done (invalid_number ∷ [], s)
  main write_buf read_buf s (some (pos n)) can_open inputs =
      if leb max_devices n
      then done (invalid_number ∷ [], s)
      else if not can_open
      then done (cannot_open ∷ [], s)
      else do s' ← perform u s (open_minor n); menu write_buf read_buf (length s.files) s' inputs
