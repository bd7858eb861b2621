-- ===== src/CharDriver/Concurrent/Overrun.antt =====
-- asm_11/ex_2/ex_2.c: which calls can get behind the end of `kernel_buffer` when others come between.
use linux_assignment.Prelude.{ℕ, ◌+◌, ◌-◌, ◌^◌, ◌≤◌, ◌<◌, ◌≡◌, ◌≢◌, List, length, min, arith, subst}
use linux_assignment.Prelude.Sums.{assign-All}
use linux_assignment.CharDriver.{buffer_size}
use linux_assignment.CharDriver.Concurrent.{
  size_left, copy_limit, read_refused, Call, read_entered, read_limiting, read_cut, read_copying,
  write_entered, write_sizing, write_ending, returned, overran, System, moved, Step, read_end,
  read_more, read_exceeds, read_fits, read_adjusts, read_copies, read_overruns, write_copies,
  write_fails, write_sizes, write_ends, write_overruns, Steps, here, next,
}

size_left-start : (n : ℕ) → n ≤ buffer_size → size_left n 0 ≡ n
size_left-start n h = omega arith

size_left-behind : (n off : ℕ) → n < off → off ≤ buffer_size → size_left n off ≡ 2 ^ 64 + n - off
size_left-behind n off lt le = omega arith

-- A read that starts at 0, and a write of fewer than 1024 bytes, at any point of the call.
abbrev pub IsFromStart : Call → Type 0
IsFromStart (read_entered len off) = off ≡ 0
IsFromStart (read_limiting len off) = off ≡ 0
IsFromStart (read_cut off) = off ≡ 0
IsFromStart (read_copying len off) = (off ≡ 0) × (len ≤ buffer_size)
IsFromStart (write_entered bytes) = length bytes < buffer_size
IsFromStart (write_sizing len) = len < buffer_size
IsFromStart (write_ending len) = len < buffer_size
IsFromStart returned = Unit
IsFromStart overran = ⊥

pub record IsContained (s : System) : Type 0 where
  pub fits : s.driver.buffer_len ≤ buffer_size
  pub each : (i : ℕ) → IsFromStart (s.calls i)

advance :
    {s : System} (i : ℕ) (c : Call) → IsContained s → IsFromStart c → IsContained (moved s i c)
advance {s} i c h f = record {
  fits = h.fits;
  each = λ j. assign-All IsFromStart s.calls i c j (λ e. f) (λ ne. h.each j);
}

Step-IsContained : {s t : System} → Step s t → IsContained s → IsContained t
Step-IsContained (read_end i len off at le) h = advance i returned h tt
Step-IsContained (read_more i len off at lt) h = advance i _ h (subst IsFromStart at (h.each i))
Step-IsContained (read_exceeds i len off at lt) h = advance i _ h (subst IsFromStart at (h.each i))
Step-IsContained {s = s} (read_fits i len off at le) h =
    let zero : off ≡ 0 = subst IsFromStart at (h.each i) in
    advance i _ h
      (zero, omega (arith, h.fits, le, zero, size_left-start s.driver.buffer_len h.fits))
Step-IsContained {s = s} (read_adjusts i off at) h =
    let zero : off ≡ 0 = subst IsFromStart at (h.each i) in
    advance i _ h (zero, omega (arith, h.fits, zero))
Step-IsContained (read_copies i len off at le) h = advance i returned h tt
Step-IsContained (read_overruns i len off at lt small) h =
    let f : (off ≡ 0) × (len ≤ buffer_size) = subst IsFromStart at (h.each i) in
    absurd (omega (arith, f.0, f.1, lt))
Step-IsContained (read_refused i len off at big) h = advance i returned h tt
Step-IsContained {s = s} (write_copies i bytes at) h =
    let f : length bytes < buffer_size = subst IsFromStart at (h.each i) in
    record {
      fits = h.fits;
      each = λ j. assign-All IsFromStart s.calls i _ j (λ e. omega (arith, f)) (λ ne. h.each j);
    }
Step-IsContained {s = s} (write_fails i bytes copied at size) h = record {
  fits = h.fits;
  each = λ j. assign-All IsFromStart s.calls i _ j (λ e. tt) (λ ne. h.each j);
}
Step-IsContained {s = s} (write_sizes i len at) h =
    let f : len < buffer_size = subst IsFromStart at (h.each i) in
    record {
      fits = omega (arith, f);
      each = λ j. assign-All IsFromStart s.calls i _ j (λ e. f) (λ ne. h.each j);
    }
Step-IsContained {s = s} (write_ends i len at lt) h = record {
  fits = h.fits;
  each = λ j. assign-All IsFromStart s.calls i _ j (λ e. tt) (λ ne. h.each j);
}
Step-IsContained (write_overruns i len at le) h =
    let f : len < buffer_size = subst IsFromStart at (h.each i) in absurd (omega (arith, f, le))

Steps-IsContained : {s t : System} → Steps s t → IsContained s → IsContained t
Steps-IsContained here h = h
Steps-IsContained (next r st) h = Step-IsContained st (Steps-IsContained r h)

not_overran : (c : Call) → IsFromStart c → c ≢ overran
not_overran c f e = subst IsFromStart e f

-- From a state in which `buffer_len` is at most 1024, every read that was called is at offset 0 and
-- fits if it is about to copy, and every write has fewer than 1024 bytes, no call gets behind the
-- end of the buffer, in whatever order the steps of the calls come.
pub contained :
    {s t : System}
    → s.driver.buffer_len ≤ buffer_size
    → ((i : ℕ) → IsFromStart (s.calls i))
    → Steps s t
    → (i : ℕ) → t.calls i ≢ overran
contained fits each r i =
    not_overran _ ((Steps-IsContained r (record { fits = fits; each = each })).each i)

-- Where a read of less than 2 ^ 31 bytes has been called at an offset inside the text, `buffer_len` is at
-- most 1024 and the bytes that are asked for reach behind the buffer, and another call is a write of
-- fewer bytes than that offset, a state can be reached in which the read has gone behind the end of
-- the buffer: the write comes between the first two tests of the read.
pub read_overtaken :
    {s : System} (i j len off : ℕ) (bytes : List ℕ)
    → s.calls i ≡ read_entered len off
    → s.calls j ≡ write_entered bytes
    → i ≢ j
    → off < s.driver.buffer_len
    → s.driver.buffer_len ≤ buffer_size
    → buffer_size < off + len
    → len < copy_limit
    → length bytes < off
    → (t : System) × Steps s t × (t.calls i ≡ overran)
read_overtaken {s} i j len off bytes reads writes ne inside fits more small shorter =
    let n = min (length bytes) buffer_size in
    let wrapped : size_left n off ≡ 2 ^ 64 + n - off =
      size_left-behind n off (omega (arith, shorter)) (omega (arith, inside, fits)) in
    (
      _,
      next
          (next
            (next
              (next (next here (read_more i len off reads inside))
                (write_copies j bytes (ground (arith, writes, ne))))
              (write_sizes j n (ground arith)))
            (read_fits i len off (ground (arith, ne))
              (omega (arith, wrapped, small, inside, fits))))
          (read_overruns i len off (ground (arith, ne)) more small),
      ground arith,
    )
