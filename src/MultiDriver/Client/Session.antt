-- ===== src/MultiDriver/Client/Session.antt =====
-- What one session of asm_11/ex_2_multi2/ex_2_user.c on the driver of
-- asm_11/ex_2_multi2/ex_2_multi2.c prints.
use linux_assignment.Prelude.{
  ℕ, ◌++◌, Bool, true, false, leb, if◌then◌else◌, ◌+◌, ◌≤◌, ◌<◌, ◌≡◌, inl, inr, refl, List, [], ◌∷◌,
  some, arith, length, get_elem?, set, ℕ_discrete, All, get_elem?-set_self, lt_of_get_elem?,
  get_elem?-of_lt, get_elem?-append_new, ℤ, pos, negsuc, is_neg, eperm, done, Bool-cases,
}
use linux_assignment.Kernel.UserMemory.{UserCopy}
use linux_assignment.MultiDriver.{
  MyDevice, ReadReply, WriteReply, buffer_size, num_devices, may_read, dev_read, dev_write,
}
use linux_assignment.MultiDriver.Access.{dev_open_lem, dev_read-forbidden, dev_read-end}
use linux_assignment.MultiDriver.Bounds.{dev_write-keeps}
use linux_assignment.MultiDriver.Files.{OpenFile, System, open_minor, read, write, seek, perform}
use linux_assignment.MultiDriver.Files.Invariant.{IsSafe, moved, replaced, opened}
use linux_assignment.MultiDriver.Files.Safety.{read_file_lem, write_file_lem}
use linux_assignment.MultiDriver.Client.{
  Input, write_text, read_text, leave, other, Output, write_failed, write_successful, read_failed,
  data_read, exiting, invalid, invalid_number, cannot_open, print_text, write_ret, read_ret, menu,
  main, max_devices,
}

-- The position of the open file is not before the end of the device's text.
record IsAhead (s : System) (fd : ℕ) : Type 0 where
  safe : IsSafe s
  file : OpenFile
  dev : MyDevice
  opened_as : get_elem? s.files fd ≡ some file
  found : get_elem? s.devices file.device ≡ some dev
  ahead : dev.size ≤ file.f_pos

-- The file after a call that may move its position.
repositioned :
    (b : Bool) (files : List OpenFile) (fd : ℕ) (f : OpenFile) (off : ℕ)
    → get_elem? files fd ≡ some f
    → get_elem? (if b then files else set files fd (seek f off)) fd
      ≡ some (seek f (if b then f.f_pos else off))
repositioned true files fd f off here = here
repositioned false files fd f off here =
    get_elem?-set_self files fd (seek f off) (lt_of_get_elem? files fd f here)

module _ (u : UserCopy) where
  open u use {Memory, bytes}

  pub write_ret_lem :
      (s : System) (fd : ℕ) (m : Memory) (buf len : ℕ) (f : OpenFile) (dev : MyDevice)
      (w : WriteReply)
      → get_elem? s.files fd ≡ some f
      → get_elem? s.devices f.device ≡ some dev
      → dev_write u dev m buf len f.f_pos ≡ done w
      → write_ret u s fd m buf len ≡ done w.ret
  unfolding write_ret
  write_ret_lem s fd m buf len f dev w here found returned = ground arith

  pub read_ret_lem :
      (s : System) (fd : ℕ) (m : Memory) (buf len : ℕ) (f : OpenFile) (dev : MyDevice)
      (r : ReadReply u)
      → get_elem? s.files fd ≡ some f
      → get_elem? s.devices f.device ≡ some dev
      → dev_read u dev m buf len f.f_pos ≡ done r
      → read_ret u s fd m buf len
        ≡ done (r.ret, elim r.ret [ pos n ↦ bytes r.mem buf n | negsuc e ↦ [] ])
  unfolding read_ret
  read_ret_lem s fd m buf len f dev r here found returned = ground arith

  pub open_lem :
      (s : System) (n : ℕ)
      → length s.devices ≡ num_devices
      → n < num_devices
      → perform u s (open_minor n)
        ≡ done (record s { files = s.files ++ (record { device = n; f_pos = 0 } ∷ []) })
  unfolding perform
  open_lem s n count lt = rw (dev_open_lem s.devices n (omega (arith, count))) refl

module _ (u : UserCopy) (write_buf read_buf : ℕ) where
  open u use {Memory, bytes, length-bytes}

  write_step :
      {s : System} (fd : ℕ) (m : Memory) (buf len : ℕ)
      → IsAhead s fd
      → (ret : ℤ) × (s' : System) × (write_ret u s fd m buf len ≡ done ret)
        × (perform u s (write fd m buf len) ≡ done s')
        × IsAhead s' fd
  unfolding perform
  write_step {s} fd m buf len a =
      let (w, returned, v, le, flag, same, size) =
        dev_write-keeps u m buf len a.file.f_pos (a.safe.valid a.file.device a.dev a.found)
          (a.safe.inside fd a.file a.opened_as) in
      (
        w.ret,
        _,
        write_ret_lem u s fd m buf len a.file a.dev w a.opened_as a.found returned,
        rw (a.opened_as, perform) (write_file_lem u s fd a.file m buf len a.dev w a.found returned),
        record {
          safe =
              moved {s = record s { devices = set s.devices a.file.device w.dev }} fd w.off
                (is_neg w.ret) (replaced a.file.device w.dev a.safe v) a.opened_as le;
          file = seek a.file (if is_neg w.ret then a.file.f_pos else w.off);
          dev = w.dev;
          opened_as = repositioned (is_neg w.ret) s.files fd a.file w.off a.opened_as;
          found =
              get_elem?-set_self s.devices a.file.device w.dev
                (lt_of_get_elem? s.devices a.file.device a.dev a.found);
          ahead = size a.ahead;
        },
      )

  read_step :
      {s : System} (fd : ℕ) (m : Memory) (buf len : ℕ)
      → IsAhead s fd
      → (ret : ℤ) × (xs : List ℕ) × (s' : System) × (read_ret u s fd m buf len ≡ done (ret, xs))
        × (perform u s (read fd m buf len) ≡ done s')
        × (length xs ≡ 0)
        × IsAhead s' fd
  unfolding perform
  read_step {s} fd m buf len a =
      let v = a.safe.valid a.file.device a.dev a.found in
      elim (ℕ_discrete (may_read a.dev) 0) [
        | yes no_bit ↦
            let returned = dev_read-forbidden u m buf len a.file.f_pos v no_bit in
            (
              eperm,
              [],
              s,
              read_ret_lem u s fd m buf len a.file a.dev _ a.opened_as a.found returned,
              rw (a.opened_as, perform)
                  (read_file_lem u s fd a.file m buf len a.dev _ a.found returned),
              refl,
              a,
            )
        | no bit ↦
            let returned = dev_read-end u m buf len a.file.f_pos v bit a.ahead in
            (
              pos 0,
              bytes m buf 0,
              _,
              read_ret_lem u s fd m buf len a.file a.dev _ a.opened_as a.found returned,
              rw (a.opened_as, perform)
                  (read_file_lem u s fd a.file m buf len a.dev _ a.found returned),
              length-bytes m buf 0,
              record {
                safe =
                    moved fd a.file.f_pos false a.safe a.opened_as
                      (a.safe.inside fd a.file a.opened_as);
                file = seek a.file a.file.f_pos;
                dev = a.dev;
                opened_as = repositioned false s.files fd a.file a.file.f_pos a.opened_as;
                found = a.found;
                ahead = a.ahead;
              },
            )
      ]

  -- No text of a device is printed.
  abbrev pub IsQuiet : Output u → Type 0
  IsQuiet (data_read text) = text ≡ []
  IsQuiet _ = Unit {0}

  print_nothing : (xs : List ℕ) → length xs ≡ 0 → print_text u xs ≡ done []
  unfolding print_text
  print_nothing [] h = refl
  print_nothing (x ∷ xs) h = absurd (omega arith)

  IsQuiet-write : (b : Bool) → IsQuiet (if b then write_failed else write_successful)
  IsQuiet-write true = tt
  IsQuiet-write false = tt

  IsQuiet-read : (b : Bool) → IsQuiet (if b then read_failed else data_read [])
  IsQuiet-read true = tt
  IsQuiet-read false = refl

  menu-IsQuiet :
      (inputs : List (Input u)) {s : System} (fd : ℕ)
      → IsAhead s fd
      → (outputs : List (Output u)) × (s' : System) × (menu u write_buf read_buf fd s inputs
          ≡ done (outputs, s'))
        × All IsQuiet outputs
  unfolding menu
  menu-IsQuiet [] {s} fd a = ([], s, refl, tt)
  menu-IsQuiet (write_text m text ∷ inputs) {s} fd a =
      let (ret, s', returned, moved_on, a') = write_step fd m write_buf (length text + 1) a in
      let (outputs, s'', rest, quiet) = menu-IsQuiet inputs fd a' in
      (
        (if is_neg ret then write_failed else write_successful) ∷ outputs,
        s'',
        rw (returned, moved_on, rest) refl,
        (IsQuiet-write (is_neg ret), quiet),
      )
  menu-IsQuiet (read_text m ∷ inputs) {s} fd a =
      let (ret, xs, s', returned, moved_on, empty, a') = read_step fd m read_buf buffer_size a in
      let (outputs, s'', rest, quiet) = menu-IsQuiet inputs fd a' in
      (
        (if is_neg ret then read_failed else data_read []) ∷ outputs,
        s'',
        rw (returned, moved_on, print_nothing xs empty, rest) refl,
        (IsQuiet-read (is_neg ret), quiet),
      )
  menu-IsQuiet (leave ∷ inputs) {s} fd a = (exiting ∷ [], s, refl, (tt, tt))
  menu-IsQuiet (other c ∷ inputs) fd a =
      let (outputs, s', rest, quiet) = menu-IsQuiet inputs fd a in
      (invalid c ∷ outputs, s', rw rest refl, (tt, quiet))

  opened-IsAhead :
      {s : System} (n : ℕ)
      → IsSafe s
      → ((i : ℕ) (dev : MyDevice) → get_elem? s.devices i ≡ some dev → dev.size ≡ 0)
      → n < num_devices
      → IsAhead
          (record s { files = s.files ++ (record { device = n; f_pos = 0 } ∷ []) })
          (length s.files)
  opened-IsAhead {s} n safe empty lt =
      let (dev, found) = get_elem?-of_lt s.devices n (omega (arith, safe.count)) in
      record {
        safe = opened n safe lt;
        file = record { device = n; f_pos = 0 };
        dev = dev;
        opened_as = get_elem?-append_new s.files (record { device = n; f_pos = 0 });
        found = found;
        ahead = omega (arith, empty n dev found);
      }

  -- On a safe driver all of whose devices are empty, where a number is typed, and then options in any
  -- order and number with a 3 at their end, the program returns and reads no byte back, whichever
  -- device is chosen: what a read prints is the empty text.
  pub nothing_back :
      {s : System} (dev_num : ℤ) (can_open : Bool) (inputs : List (Input u))
      → IsSafe s
      → ((i : ℕ) (dev : MyDevice) → get_elem? s.devices i ≡ some dev → dev.size ≡ 0)
      → (outputs : List (Output u)) × (s' : System) × (main u write_buf read_buf s
            (some dev_num)
            can_open
            (inputs ++ leave ∷ [])
          ≡ done (outputs, s'))
        × All IsQuiet outputs
  unfolding main
  nothing_back {s} (negsuc n) can_open inputs safe empty = (invalid_number ∷ [], s, refl, (tt, tt))
  nothing_back {s} (pos n) can_open inputs safe empty = elim (Bool-cases (leb max_devices n)) [
    | inl out ↦ (invalid_number ∷ [], s, ground arith, (tt, tt))
    | inr valid ↦ elim (Bool-cases can_open) [
      | inr closed ↦ (cannot_open ∷ [], s, ground arith, (tt, tt))
      | inl open_it ↦
          let (outputs, s', rest, quiet) =
            menu-IsQuiet (inputs ++ leave ∷ []) (length s.files)
              (opened-IsAhead n safe empty (ground arith)) in
          (outputs, s', ground (arith, open_lem u s n safe.count (ground arith)), quiet)
    ]
  ]
