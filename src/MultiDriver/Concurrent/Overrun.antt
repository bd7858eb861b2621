-- ===== src/MultiDriver/Concurrent/Overrun.antt =====
-- asm_11/ex_2_multi2/ex_2_multi2.c: which calls can get behind the end of a buffer when others come
-- between.
use linux_assignment.Prelude.{
  ℕ, ◌+◌, ◌-◌, ◌≤◌, ◌<◌, ◌≡◌, ◌≢◌, ◌⊎◌, inl, inr, refl, ◌∙◌, List, length, min, arith, subst,
}
use linux_assignment.Prelude.Sums.{assign-All}
use linux_assignment.MultiDriver.{MyDevice, buffer_size, may_read, may_write, size_t_sub}
use linux_assignment.MultiDriver.Concurrent.{
  Call, read_entered, read_permitted, read_sizing, read_copying, write_entered, write_copying,
  write_sizing, returned, overran, System, moved, wrote, to_copy_in, Step, read_forbidden,
  read_allowed, read_end, read_more, read_sizes, read_copies, read_overruns, read_refused,
  copy_limit, write_forbidden, write_allowed, write_copies, write_fails, write_overruns,
  write_sizes, Steps, here, next,
}

size_t_sub-within : (n off : ℕ) → off ≤ n → n ≤ buffer_size → size_t_sub n off ≡ n - off
size_t_sub-within n off le h = omega arith

-- The calls of a system whose devices had the write flags `flag` and the sizes `size` at its start.
module _ (flag size : ℕ → ℕ) where
  -- A read starts at 0, or is of a device that cannot be written; a write starts inside the buffer.
  abbrev pub IsCalm : Call → Type 0
  IsCalm (read_entered dev len off) = (off ≡ 0) ⊎ (flag dev ≡ 0)
  IsCalm (read_permitted dev len off) = (off ≡ 0) ⊎ (flag dev ≡ 0)
  IsCalm (read_sizing dev len off) = (off ≡ 0) ⊎ ((flag dev ≡ 0) × (off < size dev))
  IsCalm (read_copying dev n off) = off + n ≤ buffer_size
  IsCalm (write_entered dev bytes off) = off ≤ buffer_size
  IsCalm (write_copying dev bytes off) = (off ≤ buffer_size) × (flag dev ≢ 0)
  IsCalm (write_sizing dev off) = (off ≤ buffer_size) × (flag dev ≢ 0)
  IsCalm returned = Unit
  IsCalm overran = ⊥

  -- A device keeps its flag, and its size where it cannot be written.
  pub record IsKept (dev : ℕ) (d : MyDevice) : Type 0 where
    pub same_flag : may_write d ≡ flag dev
    pub fits : d.size ≤ buffer_size
    pub frozen : (flag dev ≢ 0) ⊎ (d.size ≡ size dev)

  pub record IsContained (s : System) : Type 0 where
    pub kept : (dev : ℕ) → IsKept dev (s.devices dev)
    pub calm : (i : ℕ) → IsCalm (s.calls i)

  advance : {s : System} (i : ℕ) (c : Call) → IsContained s → IsCalm c → IsContained (moved s i c)
  advance {s} i c h f = record {
    kept = h.kept;
    calm = λ j. assign-All IsCalm s.calls i c j (λ e. f) (λ ne. h.calm j);
  }

  update :
      {s : System} (i dev : ℕ) (c : Call) (d : MyDevice)
      → IsContained s
      → IsCalm c
      → IsKept dev d
      → IsContained (wrote s dev d i c)
  update {s} i dev c d h f k = record {
    kept = λ e.
        assign-All (IsKept e) s.devices dev d e (λ same. subst (λ n. IsKept n d) same k)
          (λ ne. h.kept e);
    calm = λ j. assign-All IsCalm s.calls i c j (λ e. f) (λ ne. h.calm j);
  }

  Step-IsContained : {s t : System} → Step s t → IsContained s → IsContained t
  Step-IsContained (read_forbidden i dev len off at f) h = advance i returned h tt
  Step-IsContained (read_allowed i dev len off at f) h = advance i _ h (subst IsCalm at (h.calm i))
  Step-IsContained (read_end i dev len off at le) h = advance i returned h tt
  Step-IsContained (read_more i dev len off at lt) h =
      let calm : (off ≡ 0) ⊎ (flag dev ≡ 0) = subst IsCalm at (h.calm i) in
      let k = h.kept dev in advance i _ h (ground (arith, calm, k.frozen, lt))
  Step-IsContained {s = s} (read_sizes i dev len off at) h =
      let calm : (off ≡ 0) ⊎ ((flag dev ≡ 0) × (off < size dev)) = subst IsCalm at (h.calm i) in
      let k = h.kept dev in
      let below : off ≤ (s.devices dev).size = ground (arith, calm, k.frozen) in
      advance i _ h
        (omega (arith, k.fits, below, size_t_sub-within (s.devices dev).size off below k.fits))
  Step-IsContained (read_copies i dev n off at le) h = advance i returned h tt
  Step-IsContained (read_overruns i dev n off at lt small) h =
      let calm : off + n ≤ buffer_size = subst IsCalm at (h.calm i) in
      absurd (omega (arith, calm, lt))
  Step-IsContained (read_refused i dev n off at big) h = advance i returned h tt
  Step-IsContained (write_forbidden i dev bytes off at f) h = advance i returned h tt
  Step-IsContained (write_allowed i dev bytes off at f) h =
      let calm : off ≤ buffer_size = subst IsCalm at (h.calm i) in
      advance i _ h (calm, λ z. f ((h.kept dev).same_flag ∙ z))
  Step-IsContained {s = s} (write_copies i dev bytes off at fit) h =
      let calm : (off ≤ buffer_size) × (flag dev ≢ 0) = subst IsCalm at (h.calm i) in
      let k = h.kept dev in
      update i dev _ _ h (ground (arith, fit, calm.0), calm.1)
        (record { same_flag = k.same_flag; fits = k.fits; frozen = k.frozen })
  Step-IsContained {s = s} (write_fails i dev bytes copied off at same fit) h =
      let k = h.kept dev in
      update i dev returned _ h tt
        (record { same_flag = k.same_flag; fits = k.fits; frozen = k.frozen })
  Step-IsContained (write_overruns i dev bytes off at lt pos) h =
      let calm : (off ≤ buffer_size) × (flag dev ≢ 0) = subst IsCalm at (h.calm i) in
      absurd (omega (arith, lt, calm.0, size_t_sub-within buffer_size off calm.0 (omega arith)))
  Step-IsContained (write_sizes i dev off at) h =
      let calm : (off ≤ buffer_size) × (flag dev ≢ 0) = subst IsCalm at (h.calm i) in
      let k = h.kept dev in
      update i dev returned _ h tt
        (record { same_flag = k.same_flag; fits = calm.0; frozen = inl calm.1 })

  Steps-IsContained : {s t : System} → Steps s t → IsContained s → IsContained t
  Steps-IsContained here h = h
  Steps-IsContained (next r st) h = Step-IsContained st (Steps-IsContained r h)

not_overran : (flag size : ℕ → ℕ) (c : Call) → IsCalm flag size c → c ≢ overran
not_overran flag size c f e = subst (IsCalm flag size) e f

-- the write flags and sizes of a system
abbrev pub flags : System → ℕ → ℕ
flags s dev = may_write (s.devices dev)

abbrev pub sizes : System → ℕ → ℕ
sizes s dev = (s.devices dev).size

-- From a state in which no size is above 1024 and no call has got behind the end of a buffer; in which
-- every read that has not set `to_copy` yet is at offset 0, or of a device without the write flag and,
-- past the test of the size, inside the size, and every read that has set it stays inside the buffer;
-- and in which every write is at an offset of at most 1024 and, past the test of the flag, of a device
-- with the write flag, and sets no size above 1024: no call gets behind the end of a buffer, in whatever
-- order the steps of the calls come.
pub calls_contained :
    {s t : System} (i : ℕ)
    → ((dev : ℕ) → (s.devices dev).size ≤ buffer_size)
    → ((j : ℕ) → IsCalm (flags s) (sizes s) (s.calls j))
    → Steps s t
    → t.calls i ≢ overran
calls_contained {s} i fits calm r = not_overran (flags s) (sizes s) _ (
    (Steps-IsContained (flags s) (sizes s) r (record {
      kept = λ dev. record { same_flag = refl; fits = fits dev; frozen = inr refl };
      calm = calm;
    })).calm
      i)

-- Where a read of less than 2 ^ 31 bytes has been called on a device with the read flag at an offset
-- inside its text, the size is at most 1024 and the bytes that are asked for reach behind the buffer,
-- and another call is a write of fewer bytes than that offset to the start of the same device, which
-- has the write flag too, a state can be reached in which the read has gone behind the end of the
-- buffer: the write comes between the test of the size and the length.
pub read_overtaken_on_device :
    {s : System} (i j dev len off : ℕ) (bytes : List ℕ)
    → s.calls i ≡ read_entered dev len off
    → s.calls j ≡ write_entered dev bytes 0
    → i ≢ j
    → may_read (s.devices dev) ≢ 0
    → may_write (s.devices dev) ≢ 0
    → off < (s.devices dev).size
    → (s.devices dev).size ≤ buffer_size
    → buffer_size < off + len
    → len < copy_limit
    → length bytes < off
    → (t : System) × Steps s t × (t.calls i ≡ overran)
read_overtaken_on_device {s} i j dev len off bytes reads writes ne can_read can_write inside fits
      long short fewer =
    let k = to_copy_in bytes 0 in
    let small : 0 + k < off = omega (arith, fewer) in
    let wrapped : min len (size_t_sub (0 + k) off) ≡ len =
      omega (arith, small, inside, fits, short) in
    (
      _,
      next
          (next
            (next
              (next
                (next
                  (next (next here (read_allowed i dev len off reads can_read))
                    (read_more i dev len off (ground arith) inside))
                  (write_allowed j dev bytes 0 (ground (arith, writes, ne)) can_write))
                (write_copies j dev bytes 0 (ground arith)
                  (inl (omega (arith, small, inside, fits)))))
              (write_sizes j dev (0 + k) (ground arith)))
            (read_sizes i dev len off (ground (arith, ne))))
          (read_overruns i dev len off (ground (arith, ne, wrapped)) long short),
      ground arith,
    )
