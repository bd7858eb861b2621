-- ===== src/MultiDriver/Concurrent.antt =====
-- asm_11/ex_2_multi2/ex_2_multi2.c with calls at the same time, on any of the devices: the driver takes
-- no lock. A step of a call is its test of the flags, which do not change, one evaluation of `size`, or
-- one access to the buffer of its device.
pub mod Overrun
mod Tests
use linux_assignment.Prelude.{ℕ, ◌^◌, ◌+◌, ◌≤◌, ◌<◌, ◌≡◌, ◌≢◌, ◌⊎◌, List, length, min, take, splice}
use linux_assignment.Prelude.Sums.{assign}
use linux_assignment.MultiDriver.{MyDevice, buffer_size, may_read, may_write, size_t_sub}

-- INT_MAX + 1: `copy_to_user` refuses as many bytes or more before it touches any.
abbrev pub copy_limit : ℕ
copy_limit = 2 ^ 31

-- where a call is; `dev` is the minor of its device
pub data Call : Type 0 where
  read_entered : (dev len off : ℕ) → Call
  read_permitted : (dev len off : ℕ) → Call
  read_sizing : (dev len off : ℕ) → Call  -- before `to_copy` is set
  read_copying : (dev to_copy off : ℕ) → Call  -- before `copy_to_user`
  write_entered : (dev : ℕ) → (bytes : List ℕ) → (off : ℕ) → Call
  write_copying : (dev : ℕ) → (bytes : List ℕ) → (off : ℕ) → Call  -- before `copy_from_user`
  write_sizing : (dev off : ℕ) → Call  -- before `size` is set
  returned : Call
  overran : Call  -- a buffer was accessed behind its end

pub record System : Type 0 where
  pub devices : ℕ → MyDevice
  pub calls : ℕ → Call

abbrev pub moved : System → ℕ → Call → System
moved s i c = record s { calls = assign s.calls i c }

-- call `i` changes its device and returns, or goes on
abbrev pub wrote : System → (dev : ℕ) → MyDevice → ℕ → Call → System
wrote s dev d i c = record { devices = assign s.devices dev d; calls = assign s.calls i c }

-- how many bytes a write moves
abbrev pub to_copy_in : List ℕ → ℕ → ℕ
to_copy_in bytes off = min (length bytes) (size_t_sub buffer_size off)

pub data Step (s : System) : System → Type 0 where
  read_forbidden :
      (i dev len off : ℕ)
      → s.calls i ≡ read_entered dev len off
      → may_read (s.devices dev) ≡ 0
      → Step s (moved s i returned)
  read_allowed :
      (i dev len off : ℕ)
      → s.calls i ≡ read_entered dev len off
      → may_read (s.devices dev) ≢ 0
      → Step s (moved s i (read_permitted dev len off))
  read_end :
      (i dev len off : ℕ)
      → s.calls i ≡ read_permitted dev len off
      → (s.devices dev).size ≤ off
      → Step s (moved s i returned)
  read_more :
      (i dev len off : ℕ)
      → s.calls i ≡ read_permitted dev len off
      → off < (s.devices dev).size
      → Step s (moved s i (read_sizing dev len off))
  read_sizes :
      (i dev len off : ℕ)
      → s.calls i ≡ read_sizing dev len off
      → Step s (moved s i (read_copying dev (min len (size_t_sub (s.devices dev).size off)) off))
  read_copies :
      (i dev n off : ℕ)
      → s.calls i ≡ read_copying dev n off
      → off + n ≤ buffer_size
      → Step s (moved s i returned)
  read_overruns :
      (i dev n off : ℕ)
      → s.calls i ≡ read_copying dev n off
      → buffer_size < off + n
      → n < copy_limit
      → Step s (moved s i overran)
  read_refused :
      (i dev n off : ℕ)
      → s.calls i ≡ read_copying dev n off
      → copy_limit ≤ n
      → Step s (moved s i returned)
  write_forbidden :
      (i dev : ℕ) (bytes : List ℕ) (off : ℕ)
      → s.calls i ≡ write_entered dev bytes off
      → may_write (s.devices dev) ≡ 0
      → Step s (moved s i returned)
  write_allowed :
      (i dev : ℕ) (bytes : List ℕ) (off : ℕ)
      → s.calls i ≡ write_entered dev bytes off
      → may_write (s.devices dev) ≢ 0
      → Step s (moved s i (write_copying dev bytes off))
  write_copies :
      (i dev : ℕ) (bytes : List ℕ) (off : ℕ)
      → s.calls i ≡ write_copying dev bytes off
      → (off + to_copy_in bytes off ≤ buffer_size) ⊎ (to_copy_in bytes off ≡ 0)
      → Step s (
          wrote s dev
            (record (s.devices dev) {
              buffer = splice (s.devices dev).buffer off (take (to_copy_in bytes off) bytes);
            })
            i
            (write_sizing dev (off + to_copy_in bytes off)))
  write_fails :
      (i dev : ℕ) (bytes copied : List ℕ) (off : ℕ)
      → s.calls i ≡ write_copying dev bytes off
      → length copied ≡ to_copy_in bytes off
      → (off + to_copy_in bytes off ≤ buffer_size) ⊎ (to_copy_in bytes off ≡ 0)
      → Step s (
          wrote s dev
            (record (s.devices dev) { buffer = splice (s.devices dev).buffer off copied })
            i
            returned)
  write_overruns :
      (i dev : ℕ) (bytes : List ℕ) (off : ℕ)
      → s.calls i ≡ write_copying dev bytes off
      → buffer_size < off + to_copy_in bytes off
      → 0 < to_copy_in bytes off
      → Step s (moved s i overran)
  write_sizes :
      (i dev off : ℕ)
      → s.calls i ≡ write_sizing dev off
      → Step s (wrote s dev (record (s.devices dev) { size = off }) i returned)

pub data Steps (s : System) : System → Type 0 where
  here : Steps s s
  next : {t v : System} → Steps s t → Step t v → Steps s v
