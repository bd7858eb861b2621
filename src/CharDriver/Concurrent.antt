-- ===== src/CharDriver/Concurrent.antt =====
-- asm_11/ex_2/ex_2.c with calls at the same time: the driver takes no lock, and several processes may
-- have the device open. A step of a call is one evaluation of `buffer_len`, or one access to
-- `kernel_buffer`; the calls come in any number, and their steps in any order.
pub mod Overrun
mod Tests
use linux_assignment.Prelude.{
  ℕ, ◌+◌, ◌-◌, ◌%◌, ◌^◌, ◌≤◌, ◌<◌, ◌≡◌, List, length, min, set, take, splice,
}
use linux_assignment.Prelude.Sums.{assign}
use linux_assignment.CharDriver.{Driver, buffer_size}

-- `buffer_len - *off`, as it is compared with a `size_t` of 64 bits
abbrev pub size_left : (buffer_len off : ℕ) → ℕ
size_left buffer_len off = (buffer_len + 2 ^ 64 - off) % 2 ^ 64

-- INT_MAX + 1: `copy_to_user` refuses as many bytes or more before it touches any.
abbrev pub copy_limit : ℕ
copy_limit = 2 ^ 31

-- where a call is
pub data Call : Type 0 where
  read_entered : (len off : ℕ) → Call
  read_limiting : (len off : ℕ) → Call  -- after the first `if`
  read_cut : (off : ℕ) → Call  -- before `len` is set
  read_copying : (len off : ℕ) → Call  -- before `copy_to_user`
  write_entered : (bytes : List ℕ) → Call
  write_sizing : (len : ℕ) → Call  -- after `copy_from_user`
  write_ending : (len : ℕ) → Call  -- before the zero byte
  returned : Call
  overran : Call  -- `kernel_buffer` was accessed behind its end

pub record System : Type 0 where
  pub driver : Driver
  pub calls : ℕ → Call

-- call `i` gets to `c`
abbrev pub moved : System → ℕ → Call → System
moved s i c = record s { calls = assign s.calls i c }

pub data Step (s : System) : System → Type 0 where
  read_end :
      (i len off : ℕ)
      → s.calls i ≡ read_entered len off
      → s.driver.buffer_len ≤ off
      → Step s (moved s i returned)
  read_more :
      (i len off : ℕ)
      → s.calls i ≡ read_entered len off
      → off < s.driver.buffer_len
      → Step s (moved s i (read_limiting len off))
  read_exceeds :
      (i len off : ℕ)
      → s.calls i ≡ read_limiting len off
      → size_left s.driver.buffer_len off < len
      → Step s (moved s i (read_cut off))
  read_fits :
      (i len off : ℕ)
      → s.calls i ≡ read_limiting len off
      → len ≤ size_left s.driver.buffer_len off
      → Step s (moved s i (read_copying len off))
  read_adjusts :
      (i off : ℕ)
      → s.calls i ≡ read_cut off
      → Step s (moved s i (read_copying (size_left s.driver.buffer_len off) off))
  read_copies :
      (i len off : ℕ)
      → s.calls i ≡ read_copying len off
      → off + len ≤ buffer_size
      → Step s (moved s i returned)
  read_overruns :
      (i len off : ℕ)
      → s.calls i ≡ read_copying len off
      → buffer_size < off + len
      → len < copy_limit
      → Step s (moved s i overran)
  read_refused :
      (i len off : ℕ)
      → s.calls i ≡ read_copying len off
      → copy_limit ≤ len
      → Step s (moved s i returned)
  write_copies :
      (i : ℕ) (bytes : List ℕ)
      → s.calls i ≡ write_entered bytes
      → Step s (record {
        driver = record s.driver {
          kernel_buffer = splice s.driver.kernel_buffer 0 (take buffer_size bytes);
        };
        calls = assign s.calls i (write_sizing (min (length bytes) buffer_size));
      })
  write_fails :
      (i : ℕ) (bytes copied : List ℕ)
      → s.calls i ≡ write_entered bytes
      → length copied ≡ min (length bytes) buffer_size
      → Step s (record {
        driver = record s.driver { kernel_buffer = splice s.driver.kernel_buffer 0 copied };
        calls = assign s.calls i returned;
      })
  write_sizes :
      (i len : ℕ)
      → s.calls i ≡ write_sizing len
      → Step s (record {
        driver = record s.driver { buffer_len = len };
        calls = assign s.calls i (write_ending len);
      })
  write_ends :
      (i len : ℕ)
      → s.calls i ≡ write_ending len
      → len < buffer_size
      → Step s (record {
        driver = record s.driver { kernel_buffer = set s.driver.kernel_buffer len 0 };
        calls = assign s.calls i returned;
      })
  write_overruns :
      (i len : ℕ) → s.calls i ≡ write_ending len → buffer_size ≤ len → Step s (moved s i overran)

pub data Steps (s : System) : System → Type 0 where
  here : Steps s s
  next : {t v : System} → Steps s t → Step t v → Steps s v
